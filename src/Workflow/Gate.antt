-- ===== src/Workflow/Gate.antt =====
-- mas/tools/scoring.py: `check_gate`, with the gates of mas/config.py. A confidence is in
-- hundredths; a blocking reason is its template.
use v.Prelude.{
  ℕ, String, Bool, true, false, ◌&&◌, Option, none, some, List, [], ◌∷◌, ◌++◌, str_eq, ltb, leb,
  if◌then◌else◌,
}
use v.Prelude.Dict.{Dict, get}
use v.Prelude.Float.{FloatOps}
use v.Prelude.Texts.{one_of}
use v.Workflow.State.{Output, items, object, classified, written, Workflow}

pub record GateConfig : Type 0 where
  pub min_confidence : ℕ
  pub required_fields : List String
  pub bayesian_threshold : Option ℕ
  pub dq_minimum : Option ℕ

abbrev plain : ℕ → List String → GateConfig
plain c fields = record {
  min_confidence = c;
  required_fields = fields;
  bayesian_threshold = none;
  dq_minimum = none;
}

-- GATE_CONFIGS
abbrev pub gate_configs : Dict GateConfig
gate_configs =
    (
      "classify",
      record {
        min_confidence = 70;
        required_fields = "domain" ∷ "bf" ∷ "variety_gaps" ∷ "ooda" ∷ "dq" ∷ [];
        bayesian_threshold = some 10;
        dq_minimum = some 60;
      },
    )
    ∷ (
      "hypotheses",
      record {
        min_confidence = 70;
        required_fields = "hypotheses" ∷ [];
        bayesian_threshold = none;
        dq_minimum = some 60;
      },
    )
    ∷ ("audit", plain 65 ("fmea" ∷ "top_findings" ∷ []))
    ∷ ("strategy", plain 60 ("strategies" ∷ "preliminary_verdicts" ∷ []))
    ∷ ("monitor", plain 50 [])
    ∷ ("report", plain 70 [])
    ∷ ("scope", plain 60 ("technology_name" ∷ "assessment_boundary" ∷ "target_environment" ∷ []))
    ∷ ("scientific_inventory", plain 60 ("scientific_basis" ∷ "evidence_items" ∷ []))
    ∷ (
      "trl_diagnosis",
      plain 60 (
          "current_trl" ∷ "target_trl" ∷ "why_not_higher" ∷ "legal_or_certification_disclaimer"
          ∷ []),
    )
    ∷ ("research_industry_alignment", plain 60 ("criteria_scores" ∷ "overall_alignment_score" ∷ []))
    ∷ ("ip_protection_axis", plain 60 ("ip_risk_notes" ∷ "specialist_review_required" ∷ []))
    ∷ (
      "next_level_recommendations",
      plain 60
          ("current_trl" ∷ "next_target_trl" ∷ "required_evidence" ∷ "advancement_criteria" ∷ []),
    )
    ∷ (
      "technical_validation_plan",
      plain 60 ("validation_tests" ∷ "acceptance_criteria" ∷ "evidence_to_collect" ∷ []),
    )
    ∷ (
      "industrial_transfer_plan",
      plain 60 (
          "ideal_industrial_partner" ∷ "minimum_transfer_package"
          ∷ "evidence_required_before_transfer" ∷ []),
    )
    ∷ (
      "readiness_roadmap",
      plain 60 ("roadmap_phases" ∷ "decision_gates" ∷ "go_no_go_criteria" ∷ []),
    )
    ∷ (
      "executive_summary",
      plain 60 (
          "current_trl" ∷ "readiness_verdict_code" ∷ "readiness_verdict" ∷ "operator_summary" ∷ []),
    )
    ∷ []

pub data Blocking : Type 0 where
  missing_required : String → Blocking
  no_output : String → Blocking
  empty_output : String → Blocking
  low_bayes_factor : Blocking
  low_decision_quality : Blocking
  few_hypotheses : ℕ → Blocking
  not_sealed : Blocking

pub record GateResult : Type 0 where
  pub passed : Bool
  pub blocking : List Blocking
  pub confidence : ℕ

abbrev pub missing_of : List String → List String → List Blocking
missing_of [] filled = []
missing_of (f ∷ fs) filled =
    let rest = missing_of fs filled in if one_of filled f then rest else missing_required f ∷ rest

abbrev pub no_blocking : List Blocking → Bool
no_blocking [] = true
no_blocking (b ∷ bs) = false

abbrev pub or_zero : Option ℕ → ℕ
or_zero none = 0
or_zero (some c) = c

-- `structural` of `run_workflow_sequence`
abbrev pub is_structural : Blocking → Bool
is_structural (missing_required f) = true
is_structural (no_output p) = true
is_structural (empty_output p) = true
is_structural _ = false

abbrev pub judged : GateConfig → ℕ → List Blocking → GateResult
judged config confidence blocking = record {
  passed = no_blocking blocking && leb config.min_confidence confidence;
  blocking = blocking;
  confidence = confidence;
}

module _ {F : Type 0} ⦃fl : FloatOps F⦄ where
  abbrev field_checks : GateConfig → String → Option (Output F) → List Blocking
  field_checks config phase none = no_output phase ∷ []
  field_checks config phase (some (items n)) = if ltb 0 n then [] else empty_output phase ∷ []
  field_checks config phase (some (object filled)) = missing_of config.required_fields filled
  field_checks config phase (some (classified filled bf dq)) =
      missing_of config.required_fields filled
  field_checks config phase (some (written t)) = missing_of config.required_fields []

  abbrev bayes_check : Option ℕ → F → List Blocking
  bayes_check none bf = []
  bayes_check (some t) bf = if fl.gtb bf (fl.of_ℕ t) then [] else low_bayes_factor ∷ []

  abbrev quality_check : Option ℕ → F → List Blocking
  quality_check none dq = []
  quality_check (some m) dq = if fl.gtb (fl.of_ℕ m) dq then low_decision_quality ∷ [] else []

  abbrev phase_checks : GateConfig → String → Bool → Option (Output F) → List Blocking
  phase_checks config phase sealed (some (classified filled bf dq)) =
      if str_eq phase "classify"
      then bayes_check config.bayesian_threshold bf ++ quality_check config.dq_minimum dq
      else []
  phase_checks config phase sealed (some (items n)) =
      if str_eq phase "hypotheses" && ltb 0 n
      then (if ltb n 3 then few_hypotheses n ∷ [] else [])
        ++ (if sealed then [] else not_sealed ∷ [])
      else []
  phase_checks config phase sealed _ = []

  abbrev pub all_checks : GateConfig → String → Bool → Option (Output F) → List Blocking
  all_checks config phase sealed output =
      field_checks config phase output ++ phase_checks config phase sealed output

  unfoldable pub check_gate : Workflow F → String → GateResult
  check_gate w phase = elim (get gate_configs phase) [
    | none ↦ record { passed = true; blocking = []; confidence = 100 }
    | some config ↦
        judged config (or_zero (get w.phase_confidence phase))
          (all_checks config phase w.sealed (get w.outputs phase))
  ]
