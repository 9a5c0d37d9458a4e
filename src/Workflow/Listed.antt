-- ===== src/Workflow/Listed.antt =====
-- mas/orchestrator.py, mas/state.py: what of the invalidation leaves the list of the triggers that have
-- fired as it is.
use v.Prelude.{String, ◌≡◌, Bool, true, false, ◌||◌, List, [], ◌∷◌, str_eq, if◌then◌else◌}
use v.Workflow.State.{PhaseFailureDiagnostic, Workflow, fail_phase}
use v.Workflow.Invalidation.{
  to_invalidate, cleared, unsealed, had_something, invalidate_phase, invalidate_phases,
  invalidate_downstream, had_lifecycle, output_there, drop_derived, drop_all, forgotten, named,
  forget_all, record_prerequisite_failure,
}

module _ {F : Type 0} where
  abbrev pub HasFired : List String → Workflow F → Type 0
  HasFired ts w = w.reentry_triggers_fired ≡ ts

  pub if-HasFired :
      {ts : List String} (u v : Workflow F) (b : Bool)
      → HasFired ts u
      → HasFired ts v
      → HasFired ts (if b then u else v)
  if-HasFired u v true h k = h
  if-HasFired u v false h k = k

  module _ {ts : List String} where
    pub fail_phase-HasFired :
        (w : Workflow F) (phase : String) (f : PhaseFailureDiagnostic)
        → HasFired ts w
        → HasFired ts (fail_phase w phase f)
    fail_phase-HasFired w phase f h = if-HasFired _ _ (str_eq phase "") h h

    invalidate_phase-HasFired :
        (w : Workflow F) (phase : String) → HasFired ts w → HasFired ts (invalidate_phase w phase)
    unfolding invalidate_phase
    invalidate_phase-HasFired w phase h =
        let below : HasFired ts (unsealed (cleared w phase) phase) =
          if-HasFired _ _ (str_eq phase "hypotheses") h h in
        if-HasFired _ _ (had_something w phase) below below

    invalidate_phases-HasFired :
        (w : Workflow F) (ps : List String) → HasFired ts w → HasFired ts (invalidate_phases w ps)
    unfolding invalidate_phases
    invalidate_phases-HasFired w [] h = h
    invalidate_phases-HasFired w (p ∷ ps) h =
        invalidate_phases-HasFired (invalidate_phase w p) ps (invalidate_phase-HasFired w p h)

    pub invalidate_downstream-HasFired :
        (sequence : List String) (w : Workflow F) (phase : String)
        → HasFired ts w
        → HasFired ts (invalidate_downstream sequence w phase)
    unfolding invalidate_downstream
    invalidate_downstream-HasFired sequence w phase h =
        invalidate_phases-HasFired w (to_invalidate sequence phase) h

    pub drop_all-HasFired :
        (w : Workflow F) (ps : List String) → HasFired ts w → HasFired ts (drop_all w ps)
    unfolding drop_all drop_derived
    drop_all-HasFired w [] h = h
    drop_all-HasFired w (p ∷ ps) h =
        drop_all-HasFired (drop_derived w p) ps
          (if-HasFired _ _ (output_there w p || had_lifecycle w p) h h)

    forget_all-HasFired :
        (w : Workflow F) (ps : List String) → HasFired ts w → HasFired ts (forget_all w ps)
    forget_all-HasFired w [] h = h
    forget_all-HasFired w (p ∷ ps) h = forget_all-HasFired (forgotten w p) ps h

    pub prerequisite_failure-HasFired :
        (sequence : List String) (w : Workflow F) (phase : String) (f : PhaseFailureDiagnostic)
        → HasFired ts w
        → HasFired ts (record_prerequisite_failure sequence w phase f)
    unfolding record_prerequisite_failure
    prerequisite_failure-HasFired sequence w phase f h =
        let start = cleared w phase in
        let below = invalidate_downstream sequence start phase in
        let clean : HasFired ts (forget_all below (named start (to_invalidate sequence phase))) =
          forget_all-HasFired below (named start (to_invalidate sequence phase))
            (invalidate_downstream-HasFired sequence start phase h) in
        if-HasFired _ _ (str_eq phase "") clean clean
