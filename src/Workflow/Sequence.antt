-- ===== src/Workflow/Sequence.antt =====
-- mas/orchestrator.py: `run_workflow_sequence`, the linear runner. What each phase's run gets from
-- outside is a `Run`. The saving of the state between the steps, the decision objects and the Brier
-- score are left out.
use v.Prelude.{String, Bool, not, ◌&&◌, none, some, List, [], ◌∷◌, ◌++◌, str_eq, any, if◌then◌else◌}
use v.Prelude.Dict.{get}
use v.Prelude.Float.{FloatOps}
use v.Workflow.State.{
  running, failed, PhaseFailureDiagnostic, Workflow, is_completed, status_of, is_there,
  phase_has_output, set_status, set_confidence, record_phase_failure,
}
use v.Workflow.Templates.{phases_from}
use v.Workflow.Invalidation.{is_met, first_unfinished, invalidate_downstream}
use v.Workflow.Gate.{gate_configs, check_gate, is_structural}
use v.Workflow.Reply.{Attempt}
use v.Workflow.Phase.{run_phase_node}

-- The clock, the attempt, compute_det_scores(state.strategy) and the targets of the triggers that
-- `evaluate_reentry_triggers` finds after the SQI.
pub record Run (F : Type 0) : Type 0 where
  pub now : F
  pub attempt : Attempt F
  pub scores : F
  pub triggers : List String

-- The loop goes on to the next phase, or returns.
pub data Turn (F : Type 0) : Type 0 where
  go_on : Workflow F → Turn F
  return_with : Workflow F → Turn F

abbrev structural_failure : PhaseFailureDiagnostic
structural_failure = record {
  category = "gate_structural";
  message = "Gate structurally blocked the workflow";
}

abbrev pub has_gate : String → Bool
has_gate phase = is_there (get gate_configs phase)

module _ {F : Type 0} ⦃fl : FloatOps F⦄ where
  abbrev pub scored : Run F → Workflow F → String → Workflow F
  scored run w phase =
      if str_eq phase "strategy"
      then (if is_there (get w.outputs phase) then record w { det_scores = some run.scores } else w)
      else if str_eq phase "sqi"
      then record w { reentry_triggers_fired = w.reentry_triggers_fired ++ run.triggers }
      else w

  abbrev pub blocked_by_gate : Workflow F → String → Workflow F
  blocked_by_gate w phase =
      record_phase_failure (set_status w phase failed) phase structural_failure

  -- From the gate on, after a phase that completed.
  unfoldable pub pass_gate : Workflow F → String → Turn F
  unfolding check_gate
  pass_gate w phase =
      let gate = check_gate w phase in
      if has_gate phase
      then (if not gate.passed && any is_structural gate.blocking
          then return_with (blocked_by_gate (set_confidence w phase gate.confidence) phase)
          else go_on (set_confidence w phase gate.confidence))
      else go_on w

  abbrev pub entered : Workflow F → String → Workflow F
  entered w phase =
      set_status (record w { policy = record w.policy { current_phase = phase } }) phase running

  unfoldable pub after_phase : Workflow F → String → Turn F
  unfolding pass_gate
  after_phase w phase =
      if is_completed (status_of w phase) then pass_gate w phase else return_with w

  -- One round of the loop.
  unfoldable pub turn : List String → Run F → Workflow F → String → Turn F
  unfolding run_phase_node after_phase phase_has_output
  turn sequence run w phase =
      if is_met w phase
      then go_on w
      else after_phase
          (scored run (run_phase_node sequence run.now run.attempt (entered w phase) phase) phase)
          phase

  unfoldable pub run_phases : List String → (String → Run F) → Workflow F → List String → Workflow F
  unfolding turn
  run_phases sequence runs w [] = w
  run_phases sequence runs w (p ∷ ps) = elim (turn sequence (runs p) w p) [
    | go_on v ↦ run_phases sequence runs v ps
    | return_with v ↦ v
  ]

  unfoldable pub run_workflow_sequence : List String → (String → Run F) → Workflow F → Workflow F
  unfolding first_unfinished invalidate_downstream phases_from run_phases
  run_workflow_sequence sequence runs w = elim (first_unfinished w sequence) [
    | none ↦ w
    | some start ↦
        run_phases sequence runs (invalidate_downstream sequence w start)
          (phases_from start sequence)
  ]
