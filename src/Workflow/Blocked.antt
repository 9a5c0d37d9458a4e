-- ===== src/Workflow/Blocked.antt =====
-- mas/orchestrator.py: a phase whose prerequisites are not met.
use v.Prelude.{
  String, ◌≡◌, refl, sym, ap, ◌∙◌, Bool, true, false, List, [], ◌∷◌, none, some, str_eq,
  if◌then◌else◌, arith, eq_iff,
}
use v.Prelude.Dict.{Dict, get, put, get-put}
use v.Prelude.Float.{FloatOps}
use v.Workflow.State.{PhaseStatus, failed, PhaseFailureDiagnostic, Workflow}
use v.Workflow.Invalidation.{
  cleared, invalidate_phase, invalidate_phases, invalidate_downstream, to_invalidate, forgotten,
  named, forget_all, missing_prerequisites, record_prerequisite_failure,
}
use v.Workflow.Cone.{prerequisite_failure-Lost}
use v.Workflow.Coherence.{missing-Derived, replaced-other, not-strategy}
use v.Workflow.Reply.{Attempt, diagnostic, no_missing}
use v.Workflow.Phase.{gated_phase, run_phase_node}

if-false : {A : Type 0} (x y : A) (b : Bool) → b ≡ false → (if b then x else y) ≡ y
if-false x y true h = absurd (ground (arith, h))
if-false x y false h = refl

module _ {F : Type 0} where
  invalidate_phase-policy :
      (w : Workflow F) (phase : String) → (invalidate_phase w phase).policy ≡ w.policy
  unfolding invalidate_phase
  invalidate_phase-policy w phase = ground arith

  invalidate_phases-policy :
      (w : Workflow F) (ps : List String) → (invalidate_phases w ps).policy ≡ w.policy
  unfolding invalidate_phases
  invalidate_phases-policy w [] = refl
  invalidate_phases-policy w (p ∷ ps) =
      invalidate_phases-policy (invalidate_phase w p) ps ∙ invalidate_phase-policy w p

  forget_all-policy : (w : Workflow F) (ps : List String) → (forget_all w ps).policy ≡ w.policy
  forget_all-policy w [] = refl
  forget_all-policy w (p ∷ ps) = forget_all-policy (forgotten w p) ps

  prerequisite_failure-policy :
      (sequence : List String) (w : Workflow F) (phase : String) (f : PhaseFailureDiagnostic)
      → (record_prerequisite_failure sequence w phase f).policy ≡ w.policy
  unfolding record_prerequisite_failure invalidate_downstream
  prerequisite_failure-policy sequence w phase f = ground (
    arith,
    eq_iff phase "",
    forget_all-policy (invalidate_phases (cleared w phase) (to_invalidate sequence phase))
        (named (cleared w phase) (to_invalidate sequence phase)),
    invalidate_phases-policy (cleared w phase) (to_invalidate sequence phase),
  )

  record IsFailed (phase : String) (w : Workflow F) : Type 0 where
    status_failed : get w.phase_status phase ≡ some failed

  if-IsFailed :
      {phase : String} {u v : Workflow F} (b : Bool)
      → IsFailed phase u
      → IsFailed phase v
      → IsFailed phase (if b then u else v)
  if-IsFailed true h k = h
  if-IsFailed false h k = k

  put-IsFailed :
      {phase : String} {v : Workflow F} (d : Dict PhaseStatus)
      → v.phase_status ≡ put d phase failed
      → IsFailed phase v
  put-IsFailed {phase} {v} d e = record {
    status_failed = ground (arith, e, get-put d phase phase failed, eq_iff phase phase);
  }

  prerequisite_failure-IsFailed :
      (sequence : List String) (w : Workflow F) (phase : String) (f : PhaseFailureDiagnostic)
      → IsFailed phase (record_prerequisite_failure sequence w phase f)
  unfolding record_prerequisite_failure
  prerequisite_failure-IsFailed sequence w phase f =
      if-IsFailed (str_eq phase "") (put-IsFailed _ refl) (put-IsFailed _ refl)

module _ {F : Type 0} ⦃fl : FloatOps F⦄ where
  -- A phase without its prerequisites is not run: it is FAILED and has no output, and the policy
  -- fields, its budget and its log among them, are those from before, so that no call is metered.
  pub run_phase_node-unmet :
      (sequence : List String) (now : F) (a : Attempt F) (w : Workflow F) (phase : String)
      → no_missing (missing_prerequisites w phase) ≡ false
      → (get (run_phase_node sequence now a w phase).phase_status phase ≡ some failed)
        × (get (run_phase_node sequence now a w phase).outputs phase ≡ none)
        × ((run_phase_node sequence now a w phase).policy ≡ w.policy)
  unfolding run_phase_node
  run_phase_node-unmet sequence now a w phase h =
      let f = diagnostic "prerequisite_failed" in
      let n = not-strategy phase (missing-Derived w phase h) in
      let e : run_phase_node sequence now a w phase
          ≡ record_prerequisite_failure sequence w phase f =
        ap
          (λ v.
            if no_missing (missing_prerequisites v phase)
            then gated_phase now a v phase
            else record_prerequisite_failure sequence v phase f)
          (replaced-other w phase (λ s. n (sym s)))
        ∙ if-false (gated_phase now a w phase) (record_prerequisite_failure sequence w phase f)
            (no_missing (missing_prerequisites w phase)) h in
      (
        ap (λ v. get v.phase_status phase) e
            ∙ (prerequisite_failure-IsFailed sequence w phase f).status_failed,
        ap (λ v. get v.outputs phase) e ∙ (prerequisite_failure-Lost sequence w phase f).is_lost,
        ap (λ v. v.policy) e ∙ prerequisite_failure-policy sequence w phase f,
      )
