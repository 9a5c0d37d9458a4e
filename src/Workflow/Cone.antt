-- ===== src/Workflow/Cone.antt =====
-- mas/state.py, mas/orchestrator.py: the cone of phases that stands on Strategy, and what a phase
-- without its prerequisites leaves.
use v.Prelude.{
  String, ◌≡◌, ◌≢◌, refl, true, false, ◌||◌, List, [], ◌∷◌, str_eq, arith, eq_iff, Bool-cases, inl,
  inr, subst,
}
use v.Prelude.Dict.{pop}
use v.Prelude.Texts.{one_of}
use v.Workflow.State.{
  stale, failed, PhaseFailureDiagnostic, Workflow, set_status, set_confidence, record_phase_failure,
}
use v.Workflow.Invalidation.{
  strategy_derived_phases, to_invalidate, cleared, invalidate_downstream, had_lifecycle,
  output_there, drop_derived, drop_all, invalidate_strategy_dependency_cone, named,
  record_prerequisite_failure,
}
use v.Workflow.Frame.{Agree, Agree-trans, Agree-refl, retold, if-Agree, set_status-Agree}
use v.Workflow.Clear.{
  Lost, Fewer, lost, kept, Fewer-trans, Fewer-Lost, if-Lost, Lost-again, popped-Lost, cleared-Agree,
  invalidate_phases-Fewer, invalidate_phases-Agree, forget_all-Fewer, forget_all-Agree, named-among,
}

module _ {F : Type 0} where
  drop_derived-Lost : (w : Workflow F) (phase : String) → Lost phase (drop_derived w phase)
  unfolding drop_derived
  drop_derived-Lost w phase =
      let gone = popped-Lost {v = record w { outputs = pop w.outputs phase }} w phase refl refl in
      Lost-again
        (if-Lost {u = set_status (record w { outputs = pop w.outputs phase }) phase stale}
          (output_there w phase || had_lifecycle w phase) (Lost-again gone refl) gone)
        refl

  drop_derived-Agree :
      {q : String} (w : Workflow F) (phase : String) → phase ≢ q → Agree q (drop_derived w phase) w
  unfolding drop_derived
  drop_derived-Agree {q} w phase d =
      let popped =
        retold {v = record w { outputs = pop w.outputs phase }} (cleared-Agree w phase d) refl
          refl in
      retold
        (if-Agree {u = set_status (record w { outputs = pop w.outputs phase }) phase stale}
          (output_there w phase || had_lifecycle w phase)
          (Agree-trans (set_status-Agree (record w { outputs = pop w.outputs phase }) stale d)
            popped)
          popped)
        refl refl

  drop_derived-Fewer :
      (q : String) (w : Workflow F) (phase : String) → Fewer q (drop_derived w phase) w
  drop_derived-Fewer q w phase = elim (Bool-cases (str_eq phase q)) [
    | inl same ↦
        let e : phase ≡ q = ground (arith, same, eq_iff phase q) in
        lost (subst (λ x. Lost x (drop_derived w phase)) e (drop_derived-Lost w phase))
    | inr other ↦ kept (drop_derived-Agree w phase (ground (arith, other, eq_iff phase q)))
  ]

  drop_all-Fewer : (q : String) (w : Workflow F) (ps : List String) → Fewer q (drop_all w ps) w
  unfolding drop_all
  drop_all-Fewer q w [] = kept Agree-refl
  drop_all-Fewer q w (p ∷ ps) =
      Fewer-trans (drop_all-Fewer q (drop_derived w p) ps) (drop_derived-Fewer q w p)

  drop_all-Agree :
      (q : String) (w : Workflow F) (ps : List String)
      → one_of ps q ≡ false
      → Agree q (drop_all w ps) w
  unfolding drop_all
  drop_all-Agree q w [] h = Agree-refl
  drop_all-Agree q w (p ∷ ps) h =
      Agree-trans (drop_all-Agree q (drop_derived w p) ps (ground (arith, h)))
        (drop_derived-Agree w p (ground (arith, h, eq_iff p q)))

  drop_all-Lost :
      (q : String) (w : Workflow F) (ps : List String) → one_of ps q ≡ true → Lost q (drop_all w ps)
  unfolding drop_all
  drop_all-Lost q w [] h = absurd (ground (arith, h))
  drop_all-Lost q w (p ∷ ps) h = elim (Bool-cases (str_eq p q)) [
    | inl same ↦
        let e : p ≡ q = ground (arith, same, eq_iff p q) in
        Fewer-Lost (drop_all-Fewer q (drop_derived w p) ps)
          (subst (λ x. Lost x (drop_derived w p)) e (drop_derived-Lost w p))
    | inr other ↦ drop_all-Lost q (drop_derived w p) ps (ground (arith, h, other))
  ]

  -- The cone of Strategy loses its outputs.
  pub cone-Lost :
      (q : String) (w : Workflow F)
      → one_of strategy_derived_phases q ≡ true
      → Lost q (invalidate_strategy_dependency_cone w)
  unfolding invalidate_strategy_dependency_cone
  cone-Lost q w h =
      Fewer-Lost
        (elim (Bool-cases (str_eq "strategy" q)) [
          | inl same ↦ lost (
              popped-Lost (drop_all w strategy_derived_phases) "strategy" refl
                (ground (arith, same, eq_iff "strategy" q)))
          | inr other ↦ kept (
              retold
                (cleared-Agree (drop_all w strategy_derived_phases) "strategy"
                  (ground (arith, other, eq_iff "strategy" q)))
                refl refl)
        ])
        (drop_all-Lost q w strategy_derived_phases h)

  pub cone-Agree :
      (q : String) (w : Workflow F)
      → one_of strategy_derived_phases q ≡ false
      → "strategy" ≢ q
      → Agree q (invalidate_strategy_dependency_cone w) w
  unfolding invalidate_strategy_dependency_cone
  cone-Agree q w h d =
      Agree-trans
        (retold (cleared-Agree (drop_all w strategy_derived_phases) "strategy" d) refl refl)
        (drop_all-Agree q w strategy_derived_phases h)

  failed_at-Agree :
      {q : String} (w : Workflow F) (phase : String) (f : PhaseFailureDiagnostic)
      → phase ≢ q
      → Agree q
          (record_phase_failure
            (record (set_confidence (set_status w phase failed) phase 0) {
              phase_summaries = pop w.phase_summaries phase;
              phase_run_completed_at = pop w.phase_run_completed_at phase;
            })
            phase
            f)
          w
  failed_at-Agree w phase f d =
      if-Agree (str_eq phase "") (retold (set_status-Agree w failed d) refl refl)
        (retold (set_status-Agree w failed d) refl refl)

  failed_at-Lost :
      {q : String} (w : Workflow F) (phase : String) (f : PhaseFailureDiagnostic)
      → Lost q w
      → Lost q (
          record_phase_failure
            (record (set_confidence (set_status w phase failed) phase 0) {
              phase_summaries = pop w.phase_summaries phase;
              phase_run_completed_at = pop w.phase_run_completed_at phase;
            })
            phase
            f)
  failed_at-Lost w phase f h = if-Lost (str_eq phase "") (Lost-again h refl) (Lost-again h refl)

  -- A phase without its prerequisites keeps no output.
  pub prerequisite_failure-Lost :
      (sequence : List String) (w : Workflow F) (phase : String) (f : PhaseFailureDiagnostic)
      → Lost phase (record_prerequisite_failure sequence w phase f)
  unfolding record_prerequisite_failure invalidate_downstream
  prerequisite_failure-Lost sequence w phase f =
      let gone = popped-Lost {v = cleared w phase} w phase refl refl in
      let below =
        Fewer-Lost (invalidate_phases-Fewer phase (cleared w phase) (to_invalidate sequence phase))
          gone in
      failed_at-Lost _ phase f (
        Fewer-Lost
          (forget_all-Fewer phase _ (named (cleared w phase) (to_invalidate sequence phase))) below)

  -- Of the others, those it invalidates may lose theirs.
  pub prerequisite_failure-Fewer :
      (q : String) (sequence : List String) (w : Workflow F) (phase : String)
      (f : PhaseFailureDiagnostic)
      → phase ≢ q
      → Fewer q (record_prerequisite_failure sequence w phase f) w
  unfolding record_prerequisite_failure invalidate_downstream
  prerequisite_failure-Fewer q sequence w phase f d =
      Fewer-trans (kept (failed_at-Agree _ phase f d)) (
        Fewer-trans (forget_all-Fewer q _ (named (cleared w phase) (to_invalidate sequence phase)))
          (Fewer-trans (invalidate_phases-Fewer q (cleared w phase) (to_invalidate sequence phase))
            (kept (cleared-Agree w phase d))))

  pub prerequisite_failure-Agree :
      (q : String) (sequence : List String) (w : Workflow F) (phase : String)
      (f : PhaseFailureDiagnostic)
      → phase ≢ q
      → one_of (to_invalidate sequence phase) q ≡ false
      → Agree q (record_prerequisite_failure sequence w phase f) w
  unfolding record_prerequisite_failure invalidate_downstream
  prerequisite_failure-Agree q sequence w phase f d h = Agree-trans (failed_at-Agree _ phase f d) (
      Agree-trans
        (forget_all-Agree q _ (named (cleared w phase) (to_invalidate sequence phase))
          (named-among q (cleared w phase) (to_invalidate sequence phase) h))
        (Agree-trans (invalidate_phases-Agree q (cleared w phase) (to_invalidate sequence phase) h)
          (cleared-Agree w phase d)))
