-- ===== src/Workflow/Templates.antt =====
-- mas/workflow_templates.py: the project types and their sequences of phases. `str.strip` and
-- `str.lower` of a project type are the argument `clean`.
use v.Prelude.{String, Option, none, some, List, [], ◌∷◌, str_eq, if◌then◌else◌}
use v.Prelude.Dict.{Dict, get}

abbrev pub strategic_audit_phase_sequence : List String
strategic_audit_phase_sequence =
    "classify" ∷ "hypotheses" ∷ "gauntlet" ∷ "audit" ∷ "strategy" ∷ "sqi" ∷ "monitor" ∷ "report"
    ∷ []

abbrev pub technology_readiness_phase_sequence : List String
technology_readiness_phase_sequence =
    "scope" ∷ "scientific_inventory" ∷ "trl_diagnosis" ∷ "research_industry_alignment"
    ∷ "ip_protection_axis" ∷ "next_level_recommendations" ∷ "technical_validation_plan"
    ∷ "industrial_transfer_plan" ∷ "readiness_roadmap" ∷ "executive_summary" ∷ []

abbrev pub project_type_aliases : Dict String
project_type_aliases =
    ("", "strategic_audit")
    ∷ ("default", "strategic_audit")
    ∷ ("strategic", "strategic_audit")
    ∷ ("strategic_audit", "strategic_audit")
    ∷ ("ai_readiness", "ai_readiness")
    ∷ ("automation_roi", "automation_roi")
    ∷ ("technology_readiness", "technology_readiness")
    ∷ ("technology_readiness_transfer", "technology_readiness")
    ∷ ("technology_readiness_and_transfer", "technology_readiness")
    ∷ []

-- The sequences of WORKFLOW_TEMPLATES.
abbrev pub workflow_templates : Dict (List String)
workflow_templates =
    ("strategic_audit", strategic_audit_phase_sequence)
    ∷ ("ai_readiness", strategic_audit_phase_sequence)
    ∷ ("automation_roi", strategic_audit_phase_sequence)
    ∷ ("technology_readiness", technology_readiness_phase_sequence)
    ∷ []

-- `normalize_project_type`; none is the ValueError
unfoldable pub normalize_project_type : (String → String) → Option String → Option String
unfolding get
normalize_project_type clean none = some "strategic_audit"
normalize_project_type clean (some t) = get project_type_aliases (clean t)

abbrev sequence_of : Option String → Option (List String)
sequence_of none = none
sequence_of (some t) = get workflow_templates t

unfoldable pub get_workflow_phase_sequence :
    (String → String) → Option String → Option (List String)
unfolding normalize_project_type get
get_workflow_phase_sequence clean project_type =
    sequence_of (normalize_project_type clean project_type)

-- sequence[sequence.index(phase) + 1:], or [] where the phase is not in the sequence
unfoldable pub phases_after : String → List String → List String
phases_after phase [] = []
phases_after phase (p ∷ ps) =
    let rest = phases_after phase ps in if str_eq p phase then ps else rest

-- sequence[sequence.index(phase):]
unfoldable pub phases_from : String → List String → List String
phases_from phase [] = []
phases_from phase (p ∷ ps) =
    let rest = phases_from phase ps in if str_eq p phase then p ∷ ps else rest

abbrev downstream_of : String → Option (List String) → Option (List String)
downstream_of phase none = none
downstream_of phase (some sequence) = some (phases_after phase sequence)

unfoldable pub get_downstream_phases :
    (String → String) → Option String → String → Option (List String)
unfolding get_workflow_phase_sequence phases_after
get_downstream_phases clean project_type changed_phase =
    downstream_of changed_phase (get_workflow_phase_sequence clean project_type)
