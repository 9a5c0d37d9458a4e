-- ===== src/Workflow/Reply.antt =====
-- mas/orchestrator.py: what `run_phase_node` gets from outside: the replies of the model, each with
-- what its parsing, the repairs and `_store_phase_output` make of it, and with the diagnostic of its
-- failure; the findings of the sanitizer; a block by the research evidence; summary and date.
use v.Prelude.{String, Bool, true, false, ◌||◌, Option, none, List, [], ◌∷◌, str_eq, if◌then◌else◌}
use v.Prelude.Dict.{Dict}
use v.Prelude.Texts.{one_of}
use v.Policy.PhaseRun.{Outcome}
use v.Workflow.Templates.{strategic_audit_phase_sequence, technology_readiness_phase_sequence}
use v.Workflow.State.{Output, PhaseFailureDiagnostic}

-- What `_store_phase_output` does with a parsed reply: it sets the output, it returns without
-- setting one (no hypothesis is valid), or it raises.
pub data Storing (F : Type 0) : Type 0 where
  populates : Output F → Storing F
  keeps : Storing F
  raises : Storing F

-- A reply's text parsed and repaired: no JSON, JSON of another shape than the phase's, or a payload.
pub data Parsed (F : Type 0) : Type 0 where
  unparsed misshaped : Parsed F
  payload : Storing F → Parsed F

pub record Reply (F : Type 0) : Type 0 where
  pub outcome : Outcome F
  pub reply_text : String
  pub parsed : Parsed F
  pub failure : PhaseFailureDiagnostic
  pub route : Dict String

pub record Attempt (F : Type 0) : Type 0 where
  pub sanitized : Option String
  pub evidence_block : Option PhaseFailureDiagnostic
  pub first : Reply F
  pub second : Reply F
  pub summary : String
  pub finished_at : String
  pub today : String

abbrev pub is_readiness : String → Bool
is_readiness phase = one_of technology_readiness_phase_sequence phase

abbrev pub is_known : String → Bool
is_known phase = one_of strategic_audit_phase_sequence phase || is_readiness phase

abbrev pub diagnostic : String → PhaseFailureDiagnostic
diagnostic category = record { category = category; message = category }

-- A reply that is to be stored, and whether it was the repair; or the diagnostic of none.
pub data Candidate (F : Type 0) : Type 0 where
  candidate : Storing F → Reply F → Bool → Candidate F
  unusable : PhaseFailureDiagnostic → Reply F → Candidate F

-- What the research evidence blocks: only Audit and Strategy ask it.
abbrev pub evidence_checked : String → Option PhaseFailureDiagnostic → Option PhaseFailureDiagnostic
evidence_checked phase block =
    if str_eq phase "audit" || str_eq phase "strategy" then block else none

abbrev pub no_missing : List String → Bool
no_missing [] = true
no_missing (p ∷ ps) = false
