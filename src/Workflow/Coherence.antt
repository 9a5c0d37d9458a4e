-- ===== src/Workflow/Coherence.antt =====
-- mas/orchestrator.py: that what stands on Strategy never outlives it.
use v.Prelude.{
  String, ◌≡◌, ◌≢◌, refl, sym, ◌∙◌, Bool, true, false, Option, none, some, List, str_eq,
  if◌then◌else◌, arith, eq_iff, Bool-cases, inl, inr, ◌⊎◌, subst,
}
use v.Prelude.Dict.{get}
use v.Prelude.Float.{FloatOps}
use v.Prelude.Texts.{one_of}
use v.Workflow.Templates.{
  strategic_audit_phase_sequence, technology_readiness_phase_sequence, normalize_project_type,
  get_workflow_phase_sequence, phases_after,
}
use v.Workflow.Collect.{collect, collect_downstream_phases}
use v.Workflow.State.{PhaseFailureDiagnostic, Workflow, phase_has_output}
use v.Workflow.Invalidation.{
  strategy_derived_phases, to_invalidate, invalidate_strategy_dependency_cone,
  missing_prerequisites, is_met, record_prerequisite_failure,
}
use v.Workflow.Frame.{Agree, gated_phase-Agree}
use v.Workflow.Clear.{Lost, Fewer, lost, kept, Agree-Lost}
use v.Workflow.Cone.{
  cone-Lost, prerequisite_failure-Lost, prerequisite_failure-Fewer, prerequisite_failure-Agree,
}
use v.Workflow.Reply.{Attempt, diagnostic, no_missing}
use v.Workflow.Phase.{gated_phase, replaced, run_phase_node}

-- The sequence of a project is one of two.
pub sequence-cases :
    (clean : String → String) (t : Option String) (sequence : List String)
    → get_workflow_phase_sequence clean t ≡ some sequence
    → (sequence ≡ strategic_audit_phase_sequence) ⊎ (sequence ≡ technology_readiness_phase_sequence)
unfolding get_workflow_phase_sequence normalize_project_type get
sequence-cases clean none sequence h = inl (ground (arith, h))
sequence-cases clean (some t) sequence h = ground (arith, h)

derived-cases :
    (phase : String)
    → one_of strategy_derived_phases phase ≡ true
    → (phase ≡ "sqi") ⊎ ((phase ≡ "monitor") ⊎ (phase ≡ "report"))
derived-cases phase h =
    ground (arith, h, eq_iff "sqi" phase, eq_iff "monitor" phase, eq_iff "report" phase)

-- What holds of the three derived phases.
by_derived :
    (P : String → Type 0)
    → P "sqi"
    → P "monitor"
    → P "report"
    → (phase : String) → one_of strategy_derived_phases phase ≡ true
    → P phase
by_derived P s m r phase h = elim (derived-cases phase h) [
  | inl e ↦ subst P (sym e) s
  | inr (inl e) ↦ subst P (sym e) m
  | inr (inr e) ↦ subst P (sym e) r
]

pub not-strategy :
    (phase : String) → one_of strategy_derived_phases phase ≡ true → "strategy" ≢ phase
not-strategy =
    by_derived (λ p. "strategy" ≢ p) (ground (arith, eq_iff "strategy" "sqi"))
      (ground (arith, eq_iff "strategy" "monitor")) (ground (arith, eq_iff "strategy" "report"))

-- No derived phase invalidates Strategy.
derived-keeps-strategy :
    (sequence : List String)
    → (sequence ≡ strategic_audit_phase_sequence) ⊎ (sequence ≡ technology_readiness_phase_sequence)
    → (phase : String) → one_of strategy_derived_phases phase ≡ true
    → one_of (to_invalidate sequence phase) "strategy" ≡ false
unfolding to_invalidate phases_after collect_downstream_phases collect get
derived-keeps-strategy sequence (inl e) =
    subst
      (λ s.
        (phase : String)
        → one_of strategy_derived_phases phase ≡ true
        → one_of (to_invalidate s phase) "strategy" ≡ false)
      (sym e)
      (by_derived (λ p. one_of (to_invalidate strategic_audit_phase_sequence p) "strategy" ≡ false)
        refl refl refl)
derived-keeps-strategy sequence (inr e) =
    subst
      (λ s.
        (phase : String)
        → one_of strategy_derived_phases phase ≡ true
        → one_of (to_invalidate s phase) "strategy" ≡ false)
      (sym e)
      (by_derived
        (λ p. one_of (to_invalidate technology_readiness_phase_sequence p) "strategy" ≡ false) refl
        refl refl)

module _ {F : Type 0} where
  pub met-Agree : {q : String} {v w : Workflow F} → Agree q v w → is_met v q ≡ is_met w q
  unfolding phase_has_output
  met-Agree h = ground (arith, h.same_output, h.same_status)

  pub met-Lost : {q : String} {w : Workflow F} → Lost q w → is_met w q ≡ false
  unfolding phase_has_output
  met-Lost h = ground (arith, h.is_lost)

  pub Lost-unmet : {q : String} {w : Workflow F} → Lost q w → is_met w q ≡ true → ⊥
  Lost-unmet h m = ground (arith, sym m ∙ met-Lost h)

  pub met-Fewer :
      {q : String} {v w : Workflow F} → Fewer q v w → is_met v q ≡ true → is_met w q ≡ true
  met-Fewer (lost h) m = absurd (Lost-unmet h m)
  met-Fewer (kept h) m = sym (met-Agree h) ∙ m

  -- The SQI, the monitor and the report are complete with output only where Strategy is.
  unfoldable pub StandsOnStrategy : Workflow F → Type 0
  StandsOnStrategy w =
      (q : String)
      → one_of strategy_derived_phases q ≡ true
      → is_met w q ≡ true
      → is_met w "strategy" ≡ true

  no_missing-strategy :
      (w : Workflow F) (phase : String)
      → no_missing (missing_prerequisites w phase) ≡ true
      → one_of strategy_derived_phases phase ≡ true
      → is_met w "strategy" ≡ true
  unfolding missing_prerequisites
  no_missing-strategy w phase h d =
      by_derived (λ p. no_missing (missing_prerequisites w p) ≡ true → is_met w "strategy" ≡ true)
        (λ m. ground (arith, m)) (λ m. ground (arith, m)) (λ m. ground (arith, m)) phase d h

  stands-Fewer :
      (v w : Workflow F)
      → Agree "strategy" v w
      → ((q : String)
          → one_of strategy_derived_phases q ≡ true
          → is_met v q ≡ true
          → is_met w q ≡ true)
      → StandsOnStrategy w
      → StandsOnStrategy v
  unfolding StandsOnStrategy
  stands-Fewer v w a f s q d m = met-Agree a ∙ s q d (f q d m)

  if-stands :
      (u v : Workflow F) (b : Bool)
      → (b ≡ true → StandsOnStrategy u)
      → (b ≡ false → StandsOnStrategy v)
      → StandsOnStrategy (if b then u else v)
  if-stands u v true h k = h refl
  if-stands u v false h k = k refl

module _ {F : Type 0} ⦃fl : FloatOps F⦄ where
  pub replaced-other : (w : Workflow F) (phase : String) → phase ≢ "strategy" → replaced w phase ≡ w
  replaced-other w phase n = ground (arith, n, eq_iff phase "strategy")

  -- A run of Strategy: no derived phase keeps its output.
  strategy-stands :
      (now : F) (a : Attempt F) (w : Workflow F)
      → StandsOnStrategy (gated_phase now a (invalidate_strategy_dependency_cone w) "strategy")
  unfolding StandsOnStrategy
  strategy-stands now a w q d m =
      let gone =
        Agree-Lost
          (gated_phase-Agree now a (invalidate_strategy_dependency_cone w) (not-strategy q d))
          (cone-Lost q w d) in
      absurd (Lost-unmet gone m)

  gated-stands :
      (now : F) (a : Attempt F) (w : Workflow F) (phase : String)
      → phase ≢ "strategy"
      → no_missing (missing_prerequisites w phase) ≡ true
      → StandsOnStrategy w
      → StandsOnStrategy (gated_phase now a w phase)
  unfolding StandsOnStrategy
  gated-stands now a w phase n h s q d m =
      met-Agree (gated_phase-Agree now a w n) ∙ (elim (Bool-cases (str_eq phase q)) [
        | inl same ↦
            let e : phase ≡ q = ground (arith, same, eq_iff phase q) in
            no_missing-strategy w phase h
              (subst (λ p. one_of strategy_derived_phases p ≡ true) (sym e) d)
        | inr other ↦ s q d (
            sym (met-Agree (gated_phase-Agree now a w (ground (arith, other, eq_iff phase q)))) ∙ m)
      ])

  missing-stands :
      (sequence : List String) (w : Workflow F) (phase : String) (f : PhaseFailureDiagnostic)
      → one_of (to_invalidate sequence phase) "strategy" ≡ false
      → phase ≢ "strategy"
      → StandsOnStrategy w
      → StandsOnStrategy (record_prerequisite_failure sequence w phase f)
  missing-stands sequence w phase f k n =
      stands-Fewer (record_prerequisite_failure sequence w phase f) w
        (prerequisite_failure-Agree "strategy" sequence w phase f n k)
        (λ q d m. elim (Bool-cases (str_eq phase q)) [
          | inl same ↦
              let e : phase ≡ q = ground (arith, same, eq_iff phase q) in
              absurd (
                Lost-unmet
                  (subst (λ p. Lost p (record_prerequisite_failure sequence w phase f)) e
                    (prerequisite_failure-Lost sequence w phase f))
                  m)
          | inr other ↦
              met-Fewer
                (prerequisite_failure-Fewer q sequence w phase f
                  (ground (arith, other, eq_iff phase q)))
                m
        ])

  -- Only the derived phases have prerequisites.
  pub missing-Derived :
      (w : Workflow F) (phase : String)
      → no_missing (missing_prerequisites w phase) ≡ false
      → one_of strategy_derived_phases phase ≡ true
  unfolding missing_prerequisites
  missing-Derived w phase h = ground (
    arith,
    h,
    eq_iff "sqi" phase,
    eq_iff "monitor" phase,
    eq_iff "report" phase,
    eq_iff phase "sqi",
    eq_iff phase "monitor",
    eq_iff phase "report",
  )

  -- The invariant of the phases: in the sequence of every project type, whatever phase is run and
  -- however it ends, the SQI, the monitor and the report are complete with output only where Strategy
  -- is, if it was so before.
  pub run_phase_node-StandsOnStrategy :
      (clean : String → String) (t : Option String) (sequence : List String) (now : F)
      (a : Attempt F) (w : Workflow F) (phase : String)
      → get_workflow_phase_sequence clean t ≡ some sequence
      → StandsOnStrategy w
      → StandsOnStrategy (run_phase_node sequence now a w phase)
  unfolding run_phase_node
  run_phase_node-StandsOnStrategy clean t sequence now a w phase g s =
      elim (Bool-cases (str_eq phase "strategy")) [
        | inl same ↦
            let e : phase ≡ "strategy" = ground (arith, same, eq_iff phase "strategy") in
            subst (λ p. StandsOnStrategy (run_phase_node sequence now a w p)) (sym e)
              (strategy-stands now a w)
        | inr other ↦
            let n : phase ≢ "strategy" = ground (arith, other, eq_iff phase "strategy") in
            subst
              (λ v. StandsOnStrategy (
                if no_missing (missing_prerequisites v phase)
                then gated_phase now a v phase
                else record_prerequisite_failure sequence v phase
                    (diagnostic "prerequisite_failed")))
              (sym (replaced-other w phase n))
              (if-stands _ _ (no_missing (missing_prerequisites w phase))
                (λ h. gated-stands now a w phase n h s)
                (λ h.
                  missing-stands sequence w phase (diagnostic "prerequisite_failed")
                    (derived-keeps-strategy sequence (sequence-cases clean t sequence g) phase
                      (missing-Derived w phase h))
                    n s))
      ]
