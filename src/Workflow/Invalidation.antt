-- ===== src/Workflow/Invalidation.antt =====
-- The invalidation of phases: `invalidate_downstream` of mas/tools/scoring.py,
-- `invalidate_strategy_dependency_cone` of mas/state.py, and the prerequisites and the first
-- unfinished phase of mas/orchestrator.py. `sequence` is that of the project's type. The language
-- and the mode of the report, which go with its output, are left out.
use v.Prelude.{
  String, Bool, false, not, ◌||◌, ◌&&◌, Option, none, some, List, [], ◌∷◌, str_eq, select,
  if◌then◌else◌,
}
use v.Prelude.Dict.{get, put, pop}
use v.Workflow.Templates.{phases_after}
use v.Workflow.Collect.{collect_downstream_phases}
use v.Workflow.State.{
  PhaseStatus, failed, stale, PhaseFailureDiagnostic, Workflow, is_completed, is_pending, status_of,
  is_there, phase_has_output, phase_has_material_output, set_status, set_confidence,
  record_phase_failure,
}

abbrev pub strategy_derived_phases : List String
strategy_derived_phases = "sqi" ∷ "monitor" ∷ "report" ∷ []

-- STRATEGIC_PHASE_PREREQUISITES.get(phase, ())
abbrev pub prerequisites : String → List String
prerequisites phase =
    if str_eq phase "sqi"
    then "strategy" ∷ []
    else if str_eq phase "monitor"
    then "strategy" ∷ []
    else if str_eq phase "report"
    then "strategy" ∷ "monitor" ∷ []
    else []

abbrev pub or_else_list : List String → List String → List String
or_else_list [] ys = ys
or_else_list (x ∷ xs) ys = x ∷ xs

abbrev is_some_pending : Option PhaseStatus → Bool
is_some_pending none = false
is_some_pending (some s) = is_pending s

-- get_downstream_phases(...), or collect_downstream_phases(changed_phase) where it is empty
unfoldable pub to_invalidate : List String → String → List String
unfolding phases_after collect_downstream_phases
to_invalidate sequence changed_phase =
    or_else_list (phases_after changed_phase sequence) (collect_downstream_phases changed_phase)

module _ {F : Type 0} where
  -- Drops the output of one phase, with what goes with it.
  abbrev pub cleared : Workflow F → String → Workflow F
  cleared w phase = record w {
    outputs = pop w.outputs phase;
    audit_raw = if str_eq phase "audit" then none else w.audit_raw;
    strategy_raw = if str_eq phase "strategy" then none else w.strategy_raw;
    det_scores = if str_eq phase "strategy" then none else w.det_scores;
  }

  abbrev pub unsealed : Workflow F → String → Workflow F
  unsealed w phase =
      if str_eq phase "hypotheses" then record w { sealed = false; seal_date = none } else w

  abbrev pub had_something : Workflow F → String → Bool
  had_something w phase =
      phase_has_material_output w phase
      || (not (is_some_pending (get w.phase_status phase))
          || (is_there (get w.phase_summaries phase) || is_there (get w.phase_confidence phase)))

  abbrev pub marked_stale : Workflow F → String → Workflow F
  marked_stale w phase = record w {
    phase_status = put w.phase_status phase stale;
    phase_confidence = pop w.phase_confidence phase;
    phase_summaries = pop w.phase_summaries phase;
  }

  -- One round of the loop of `invalidate_downstream`.
  unfoldable pub invalidate_phase : Workflow F → String → Workflow F
  unfolding phase_has_material_output
  invalidate_phase w phase =
      if had_something w phase
      then marked_stale (unsealed (cleared w phase) phase) phase
      else unsealed (cleared w phase) phase

  unfoldable pub invalidate_phases : Workflow F → List String → Workflow F
  invalidate_phases w [] = w
  invalidate_phases w (p ∷ ps) = invalidate_phases (invalidate_phase w p) ps

  -- `invalidate_downstream` in a sequence of phases, and the phases that it names
  unfoldable pub invalidate_downstream : List String → Workflow F → String → Workflow F
  unfolding invalidate_phases to_invalidate
  invalidate_downstream sequence w changed_phase =
      invalidate_phases w (to_invalidate sequence changed_phase)

  abbrev pub dropped : Workflow F → String → Workflow F
  dropped w phase = record w {
    phase_confidence = pop w.phase_confidence phase;
    phase_summaries = pop w.phase_summaries phase;
    phase_run_completed_at = pop w.phase_run_completed_at phase;
    phase_failure_details = pop w.phase_failure_details phase;
  }

  abbrev pub had_lifecycle : Workflow F → String → Bool
  had_lifecycle w phase =
      not (is_pending (status_of w phase))
      || (is_there (get w.phase_confidence phase)
          || (is_there (get w.phase_summaries phase)
              || (is_there (get w.phase_run_completed_at phase)
                  || is_there (get w.phase_failure_details phase))))

  abbrev pub output_there : Workflow F → String → Bool
  output_there w phase =
      if str_eq phase "report" then phase_has_output w phase else is_there (get w.outputs phase)

  -- One round of `invalidate_strategy_dependency_cone`.
  unfoldable pub drop_derived : Workflow F → String → Workflow F
  unfolding phase_has_output
  drop_derived w phase =
      dropped
        (if output_there w phase || had_lifecycle w phase
          then set_status (record w { outputs = pop w.outputs phase }) phase stale
          else record w { outputs = pop w.outputs phase })
        phase

  unfoldable pub drop_all : Workflow F → List String → Workflow F
  drop_all w [] = w
  drop_all w (p ∷ ps) = drop_all (drop_derived w p) ps

  -- without the optional status and failure, as `invalidate_strategy_replacement` calls it
  unfoldable pub invalidate_strategy_dependency_cone : Workflow F → Workflow F
  unfolding drop_all drop_derived
  invalidate_strategy_dependency_cone w =
      dropped (cleared (drop_all w strategy_derived_phases) "strategy") "strategy"

  abbrev pub is_met : Workflow F → String → Bool
  is_met w p = is_completed (status_of w p) && phase_has_output w p

  -- `_phase_prerequisites_met`: the predecessors that are missing
  unfoldable pub missing_prerequisites : Workflow F → String → List String
  unfolding phase_has_output
  missing_prerequisites w phase = select (λ p. not (is_met w p)) (prerequisites phase)

  abbrev pub forgotten : Workflow F → String → Workflow F
  forgotten w phase = record (cleared w phase) {
    phase_failure_details = pop w.phase_failure_details phase;
    phase_run_completed_at = pop w.phase_run_completed_at phase;
  }

  -- Which of the phases were marked stale is what `invalidate_downstream` returned.
  abbrev pub named : Workflow F → List String → List String
  named w [] = []
  named w (p ∷ ps) =
      let rest = named (invalidate_phase w p) ps in if had_something w p then p ∷ rest else rest

  abbrev pub forget_all : Workflow F → List String → Workflow F
  forget_all w [] = w
  forget_all w (p ∷ ps) = forget_all (forgotten w p) ps

  unfoldable pub record_prerequisite_failure :
      List String → Workflow F → String → PhaseFailureDiagnostic → Workflow F
  unfolding invalidate_downstream invalidate_phase to_invalidate
  record_prerequisite_failure sequence w phase failure =
      let start = cleared w phase in
      let below = invalidate_downstream sequence start phase in
      let clean = forget_all below (named start (to_invalidate sequence phase)) in
      record_phase_failure
        (record (set_confidence (set_status clean phase failed) phase 0) {
          phase_summaries = pop clean.phase_summaries phase;
          phase_run_completed_at = pop clean.phase_run_completed_at phase;
        })
        phase failure

  abbrev pub is_unfinished : Workflow F → String → Bool
  is_unfinished w phase = not (is_completed (status_of w phase) && phase_has_output w phase)

  -- `get_first_unfinished_phase` in a sequence
  unfoldable pub first_unfinished : Workflow F → List String → Option String
  unfolding phase_has_output
  first_unfinished w [] = none
  first_unfinished w (p ∷ ps) =
      let rest = first_unfinished w ps in if is_unfinished w p then some p else rest

  unfoldable pub is_workflow_complete : Workflow F → List String → Bool
  unfolding first_unfinished
  is_workflow_complete w sequence = not (is_there (first_unfinished w sequence))
