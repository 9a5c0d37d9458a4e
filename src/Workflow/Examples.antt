-- ===== src/Workflow/Examples.antt =====
-- Tests of the workflow (mas/orchestrator.py, mas/tools/scoring.py), and the theorems at concrete
-- inputs. The float is a natural number here.
use v.Prelude.{
  ℕ, ◌+◌, ◌-◌, String, ◌≡◌, ◌≢◌, refl, true, false, none, some, List, [], ◌∷◌, arith, ltb,
}
use v.Prelude.Dict.{Dict, get, put}
use v.Prelude.Float.{FloatOps}
use v.Policy.Types.{ProjectState}
use v.Policy.PhaseRun.{Outcome}
use v.Workflow.Templates.{
  strategic_audit_phase_sequence, get_workflow_phase_sequence, normalize_project_type,
}
use v.Workflow.Collect.{collect, enough, invalidation_map, next_of, collect_downstream_phases}
use v.Workflow.State.{object, failed, items, Workflow, phase_has_output}
use v.Workflow.Invalidation.{missing_prerequisites}
use v.Workflow.Reply.{populates, payload, Reply, Attempt}
use v.Workflow.Phase.{run_phase_node}
use v.Workflow.Sequence.{Run, run_workflow_sequence}
use v.Workflow.Graph.{
  hypotheses_node, convergence_gate_node, hypotheses_gate_edges, hypotheses_gate_edges,
  route_after_gate, route_after_reentry, reentry_check_node,
}
use v.Workflow.Closure.{Least, collect-enough, collect_downstream_phases-Least}
use v.Workflow.Coherence.{StandsOnStrategy, run_phase_node-StandsOnStrategy}
use v.Workflow.Completion.{run_phase_node-Sound}
use v.Workflow.Blocked.{run_phase_node-unmet}
use v.Workflow.Walks.{is_target, Walk, Walk-stuck}
use v.Workflow.Gauntlet.{hypotheses_node-gauntlet}
use v.Workflow.Runner.{Front}
use v.Workflow.Front.{run_workflow_sequence-Front}

instance abbrev nat_floats : FloatOps ℕ
nat_floats = record {
  of_ℕ = λ n. n;
  add = λ a b. a + b;
  sub = λ a b. a - b;
  div = λ a b. a;
  gtb = λ a b. ltb b a;
}

abbrev no_policy : ProjectState ℕ
no_policy = record {
  current_phase = "";
  risk_classification = "";
  budget_caps = none;
  budget_consumed = none;
  kill_switch_active = false;
  kill_switch_reason = "";
  kill_switch_triggered_by = "";
  kill_switch_triggered_at = none;
  approvals_granted = [];
  phase_breakers = [];
  policy_audit_log = none;
}

abbrev fresh : Workflow ℕ
fresh = record {
  policy = no_policy;
  phase_status = [];
  phase_confidence = [];
  phase_summaries = [];
  phase_run_completed_at = [];
  phase_failure_details = [];
  outputs = [];
  audit_raw = none;
  strategy_raw = none;
  det_scores = none;
  sealed = false;
  seal_date = none;
  intake_sanitization_findings = none;
  reentry_triggers_fired = [];
  re_entry_count = [];
}

abbrev three : Reply ℕ
three = record {
  outcome = record { tokens = 10; cost_usd = 1; success = true };
  reply_text = "[...]";
  parsed = payload (populates (items 3));
  failure = record { category = ""; message = "" };
  route = [];
}

abbrev attempt : Attempt ℕ
attempt = record {
  sanitized = none;
  evidence_block = none;
  first = three;
  second = three;
  summary = "three hypotheses";
  finished_at = "2026-01-01T10:00:00";
  today = "2026-01-01";
}

abbrev run : Run ℕ
run = record { now = 5; attempt = attempt; scores = 7; triggers = "audit" ∷ [] }

run_workflow_sequence-Front_example :
    Front
      (run_workflow_sequence strategic_audit_phase_sequence (λ p. run) fresh)
      strategic_audit_phase_sequence
unfolding get_workflow_phase_sequence normalize_project_type get
run_workflow_sequence-Front_example =
    run_workflow_sequence-Front (λ t. t) (some "automation_roi") strategic_audit_phase_sequence
      (λ p. run) fresh refl

fresh-StandsOnStrategy : StandsOnStrategy fresh
unfolding StandsOnStrategy phase_has_output get
fresh-StandsOnStrategy q d m = absurd (ground (arith, m))

run_phase_node-StandsOnStrategy_example :
    StandsOnStrategy (run_phase_node strategic_audit_phase_sequence 5 attempt fresh "strategy")
unfolding get_workflow_phase_sequence normalize_project_type get
run_phase_node-StandsOnStrategy_example =
    run_phase_node-StandsOnStrategy (λ t. t) none strategic_audit_phase_sequence 5 attempt fresh
      "strategy" refl fresh-StandsOnStrategy

run_phase_node-Sound_example :
    phase_has_output
      (run_phase_node strategic_audit_phase_sequence 5 attempt fresh "hypotheses")
      "hypotheses"
    ≡ true
unfolding run_phase_node get put v.Policy.Gate.policy_gate v.Policy.PhaseRun.phase_reversibility
run_phase_node-Sound_example =
    run_phase_node-Sound strategic_audit_phase_sequence 5 attempt fresh "hypotheses" refl refl refl

abbrev with_four : Workflow ℕ
with_four = record fresh { outputs = ("hypotheses", items 4) ∷ [] }

run_phase_node-unmet_example :
    (get
        (run_phase_node strategic_audit_phase_sequence 5 attempt fresh "report").phase_status
        "report"
      ≡ some failed)
    × (get (run_phase_node strategic_audit_phase_sequence 5 attempt fresh "report").outputs "report"
        ≡ none)
    × ((run_phase_node strategic_audit_phase_sequence 5 attempt fresh "report").policy ≡ no_policy)
unfolding missing_prerequisites get phase_has_output
run_phase_node-unmet_example =
    run_phase_node-unmet strategic_audit_phase_sequence 5 attempt fresh "report" refl

abbrev cyclic : Dict (List String)
cyclic = ("a", "b" ∷ []) ∷ ("b", "a" ∷ []) ∷ []

collect-enough_example :
    (ps : List String) × (collect (enough cyclic ("a" ∷ [])) cyclic ("a" ∷ []) [] [] ≡ some ps)
collect-enough_example = collect-enough cyclic ("a" ∷ [])

collect_downstream_phases-Least_example :
    Least invalidation_map
      (next_of invalidation_map "monitor")
      (collect_downstream_phases "monitor")
collect_downstream_phases-Least_example = collect_downstream_phases-Least "monitor"

abbrev at_phase : String → Workflow ℕ
at_phase phase = record fresh { policy = record no_policy { current_phase = phase } }

abbrev gauntlet_attempt : Attempt ℕ
gauntlet_attempt = record attempt {
  first = record three { parsed = payload (populates (object [])) };
}

hypotheses_node-gauntlet_example :
    get hypotheses_gate_edges
      (route_after_gate (
        convergence_gate_node
          (hypotheses_node strategic_audit_phase_sequence 5 attempt gauntlet_attempt fresh))).1
    ≡ none
unfolding run_phase_node hypotheses_node get put v.Policy.Gate.policy_gate
    v.Policy.PhaseRun.phase_reversibility v.Policy.Gate.log_policy_event
hypotheses_node-gauntlet_example =
    hypotheses_node-gauntlet strategic_audit_phase_sequence 5 attempt gauntlet_attempt fresh refl
      refl

abbrev audit_fired : Workflow ℕ
audit_fired = record fresh { reentry_triggers_fired = "audit" ∷ [] }

-- A run of the audit, and a check after it that fires another trigger.
abbrev walked : Workflow ℕ
walked =
    reentry_check_node ("hypotheses" ∷ [])
      (run_phase_node strategic_audit_phase_sequence 5 attempt audit_fired "audit")

Walk-stuck_example :
    (is_target (route_after_reentry strategic_audit_phase_sequence walked).1 ≡ true)
    × ((route_after_reentry strategic_audit_phase_sequence walked).1 ≢ "monitor")
Walk-stuck_example =
    Walk-stuck strategic_audit_phase_sequence audit_fired walked "audit" [] refl refl
      (Walk.checked ("hypotheses" ∷ []) refl (Walk.phase_run 5 attempt "audit" Walk.no_step))
