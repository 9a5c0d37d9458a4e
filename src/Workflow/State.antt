-- ===== src/Workflow/State.antt =====
-- mas/state.py: what the workflow reads and writes of `ProjectState`. The output of a phase is kept
-- as what the code tests of it. A confidence, which is written as 0.0 or 1.0, is in hundredths.
use v.Prelude.{
  ℕ, String, Bool, true, false, ◌||◌, Option, none, some, List, str_eq, ltb, if◌then◌else◌,
}
use v.Prelude.Dict.{Dict, get, put}
use v.Policy.Types.{ProjectState}

pub data PhaseStatus : Type 0 where
  pending running completed failed stale : PhaseStatus

-- A list of so many items, an object with these fields filled, the classification with its Bayes
-- factor and the sum of its decision quality, or the text of the report.
pub data Output (F : Type 0) : Type 0 where
  items : ℕ → Output F
  object : List String → Output F
  classified : List String → F → F → Output F
  written : String → Output F

pub record PhaseFailureDiagnostic : Type 0 where
  pub category : String
  pub message : String

pub record Workflow (F : Type 0) : Type 0 where
  pub policy : ProjectState F
  pub phase_status : Dict PhaseStatus
  pub phase_confidence : Dict ℕ
  pub phase_summaries : Dict String
  pub phase_run_completed_at : Dict String
  pub phase_failure_details : Dict PhaseFailureDiagnostic
  pub outputs : Dict (Output F)
  pub audit_raw : Option String
  pub strategy_raw : Option String
  pub det_scores : Option F
  pub sealed : Bool
  pub seal_date : Option String
  pub intake_sanitization_findings : Option String
  pub reentry_triggers_fired : List String
  pub re_entry_count : Dict ℕ

abbrev pub is_completed : PhaseStatus → Bool
is_completed completed = true
is_completed _ = false

abbrev pub is_pending : PhaseStatus → Bool
is_pending pending = true
is_pending _ = false

-- phase_status.get(phase, PENDING)
abbrev pub status_or_pending : Option PhaseStatus → PhaseStatus
status_or_pending none = pending
status_or_pending (some s) = s

abbrev pub is_filled : Option String → Bool
is_filled none = false
is_filled (some t) = if str_eq t "" then false else true

abbrev pub is_there : {A : Type 0} → Option A → Bool
is_there none = false
is_there (some a) = true

module _ {F : Type 0} where
  abbrev pub status_of : Workflow F → String → PhaseStatus
  status_of w phase = status_or_pending (get w.phase_status phase)

  abbrev pub is_output : Option (Output F) → Bool
  is_output none = false
  is_output (some (items n)) = ltb 0 n
  is_output (some (written t)) = is_filled (some t)
  is_output (some _) = true

  unfoldable pub phase_has_output : Workflow F → String → Bool
  phase_has_output w phase = is_output (get w.outputs phase)

  unfoldable pub phase_has_material_output : Workflow F → String → Bool
  unfolding phase_has_output
  phase_has_material_output w phase =
      if str_eq phase "audit"
      then phase_has_output w phase || is_filled w.audit_raw
      else if str_eq phase "strategy"
      then phase_has_output w phase || is_filled w.strategy_raw
      else phase_has_output w phase

  -- The parts that a run of the phases changes, one at a time.
  abbrev pub set_status : Workflow F → String → PhaseStatus → Workflow F
  set_status w phase s = record w { phase_status = put w.phase_status phase s }

  abbrev pub set_confidence : Workflow F → String → ℕ → Workflow F
  set_confidence w phase c = record w { phase_confidence = put w.phase_confidence phase c }

  abbrev pub record_phase_failure : Workflow F → String → PhaseFailureDiagnostic → Workflow F
  record_phase_failure w phase f =
      if str_eq phase ""
      then w
      else record w { phase_failure_details = put w.phase_failure_details phase f }

  abbrev pub fail_phase : Workflow F → String → PhaseFailureDiagnostic → Workflow F
  fail_phase w phase f =
      record_phase_failure (set_confidence (set_status w phase failed) phase 0) phase f
