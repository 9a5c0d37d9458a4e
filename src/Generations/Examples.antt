-- ===== src/Generations/Examples.antt =====
-- Tests of the generations of an analysis (mas/state_coherence.py), and the theorems at concrete
-- inputs. The float is a natural number here.
use v.Prelude.{ℕ, String, true, false, Option, none, some, List, [], ◌∷◌, ◌≡◌, ◌↔◌, refl}
use v.Prelude.Dict.{get}
use v.Policy.Types.{ProjectState}
use v.Workflow.State.{Workflow, completed, written}
use v.Generations.Tables.{candidate, Generation, Database, find_generation}
use v.Generations.Rows.{Single}
use v.Generations.Lifecycle.{
  Result, committed, raised, has_raised, promote_candidate, accept_completed_analysis,
}
use v.Generations.Coherent.{IsCoherent}
use v.Generations.Promotion.{
  Call, creates, validates, abandons, perform_all, perform_all-IsCoherent, perform_all-settled,
  Promotable,
}
use v.Generations.Swap.{promote_candidate_iff, promote_candidate-once}
use v.Generations.Acceptance.{accept_completed_analysis-raised}

abbrev no_policy : ProjectState ℕ
no_policy = record {
  current_phase = "";
  risk_classification = "minimal_risk";
  budget_caps = none;
  budget_consumed = none;
  kill_switch_active = false;
  kill_switch_reason = "";
  kill_switch_triggered_by = "";
  kill_switch_triggered_at = none;
  approvals_granted = [];
  phase_breakers = [];
  policy_audit_log = none;
}

abbrev reported : Workflow ℕ
reported = record {
  policy = no_policy;
  phase_status = ("report", completed) ∷ [];
  phase_confidence = [];
  phase_summaries = [];
  phase_run_completed_at = [];
  phase_failure_details = [];
  outputs = ("report", written "text") ∷ [];
  audit_raw = none;
  strategy_raw = none;
  det_scores = none;
  sealed = false;
  seal_date = none;
  intake_sanitization_findings = none;
  reentry_triggers_fired = [];
  re_entry_count = [];
}

abbrev generation : String → List String → Generation ℕ
generation id sequence = record {
  id = id;
  project_id = "p";
  decision_id = "d";
  snapshot_id = "s";
  workflow_fingerprint = "w";
  lifecycle_status = candidate;
  expected_base = none;
  state_sha256 = "h";
  state = record { workflow = reported; sequence = sequence };
  validated_at = none;
  promoted_at = none;
  terminal_at = none;
}

abbrev empty_database : Database ℕ
empty_database = record { generations = []; current = [] }

empty-IsCoherent : IsCoherent empty_database
unfolding Single
empty-IsCoherent = record { shaped = tt; single = tt; bound = tt }

-- Two candidates on the same base, both validated.
abbrev two_candidates : List (Call ℕ)
two_candidates =
    creates (generation "a" ("report" ∷ []))
    ∷ creates (generation "b" ("report" ∷ []))
    ∷ validates 5 "a"
    ∷ validates 6 "b"
    ∷ []

unfoldable validated : Database ℕ
unfolding perform_all
validated = perform_all empty_database two_candidates

validated-IsCoherent : IsCoherent validated
unfolding validated
validated-IsCoherent = perform_all-IsCoherent empty_database two_candidates empty-IsCoherent

perform_all-IsCoherent_example : IsCoherent (perform_all empty_database two_candidates)
perform_all-IsCoherent_example =
    perform_all-IsCoherent empty_database two_candidates empty-IsCoherent

abbrev committed_by : Result ℕ → Database ℕ
committed_by (committed d) = d
committed_by (raised e) = empty_database

unfoldable after_a : Database ℕ
unfolding promote_candidate validated
after_a = committed_by (promote_candidate validated 7 "a" none)

abbrev row_of : Option (Generation ℕ) → Generation ℕ
row_of none = generation "" []
row_of (some g) = g

promote_candidate_iff_example :
    ((d : Database ℕ) × (promote_candidate validated 7 "a" none ≡ committed d))
    ↔ Promotable validated "a" none
promote_candidate_iff_example = promote_candidate_iff validated 7 "a" none validated-IsCoherent

promote_candidate-once_example : has_raised (promote_candidate after_a 8 "b" none) ≡ true
unfolding validated after_a promote_candidate find_generation get
promote_candidate-once_example =
    promote_candidate-once validated after_a 7 8 "a" "b" none
      (row_of (find_generation validated.generations "a"))
      (row_of (find_generation after_a.generations "b")) validated-IsCoherent refl refl refl refl
      refl

perform_all-settled_example :
    find_generation (perform_all after_a (abandons 9 "a" true ∷ [])).generations "a"
    ≡ some (row_of (find_generation after_a.generations "a"))
unfolding after_a find_generation validated get
perform_all-settled_example =
    perform_all-settled after_a (abandons 9 "a" true ∷ []) "a"
      (row_of (find_generation after_a.generations "a")) refl refl

accept_completed_analysis-raised_example :
    (accept_completed_analysis empty_database 5 (generation "c" ("audit" ∷ []))).1.current ≡ []
unfolding accept_completed_analysis get
accept_completed_analysis-raised_example =
    accept_completed_analysis-raised empty_database 5 (generation "c" ("audit" ∷ [])) refl
