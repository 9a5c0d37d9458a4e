-- ===== src/EvidenceUse/Examples.antt =====
-- Tests of the evidence-use policy (mas/research_evidence/automation_roi_use_policy.py), and the
-- theorems at concrete inputs.
use v.Prelude.{◌≡◌, ◌↔◌, refl, true, none, some, [], ◌∷◌, All}
use mathlib.Core.List.{Permᴰ}
use v.EvidenceUse.Policy.{
  approved, fresh, stale, no_material_drift, meets_contract, Binding, Expected,
  evaluate_binding_set, sort_bindings, collect, hard_reasons, own_failures, set_mismatches,
  indeterminate_reasons, qualified_reasons, ordered_unique,
}
use v.EvidenceUse.Verdict.{evaluate-perm}
use v.EvidenceUse.Satisfaction.{Satisfies, evaluate_binding_set_iff}

abbrev expected : Expected
expected = record {
  project_id = "p";
  binding_set_id = "set";
  freshness_as_of = 7;
  policy_parameters = "{}";
  policy_fingerprint = "f";
}

abbrev binding : Binding
binding = record {
  id = "b1";
  input_key = "periods_per_year";
  project_id = "p";
  consumer_contract = "deterministic_calculation";
  consumer_contract_version = "automation_roi.evidence_input.v1";
  binding_set_id = "set";
  calculation_kind = some "automation_roi";
  policy_identifier = "automation_roi.evidence_use";
  policy_version = "1";
  policy_parameters_json = "{}";
  policy_fingerprint = "f";
  evaluator_version = "automation_roi.evidence_use.evaluator.v1";
  freshness_as_of = 7;
  availability_status = true;
  lineage_is_current = true;
  review_status = approved;
  freshness_status = fresh;
  drift_status = no_material_drift;
  consumer_disposition = meets_contract;
  disposition_reasons = [];
  claim_intake_item_id = none;
  claim_support_assessment_id = none;
  locator_resolution = none;
  evidence_linkage = none;
  semantic_relationship = none;
}

abbrev stale_binding : Binding
stale_binding = record binding {
  id = "b2";
  input_key = "baseline_hours_per_period";
  freshness_status = stale;
}

satisfies_test : (evaluate_binding_set expected [] (binding ∷ [])).status ≡ "satisfies"
unfolding evaluate_binding_set sort_bindings collect hard_reasons own_failures set_mismatches
    indeterminate_reasons qualified_reasons
satisfies_test = refl

reasons_test :
    (evaluate_binding_set expected ("b1" ∷ []) (binding ∷ stale_binding ∷ [])).reasons
    ≡ "role:periods_per_year:binding_record_superseded" ∷ []
unfolding evaluate_binding_set sort_bindings collect hard_reasons own_failures set_mismatches
    indeterminate_reasons qualified_reasons ordered_unique
reasons_test = refl

evaluate_binding_set_iff_example :
    ((evaluate_binding_set expected [] (binding ∷ stale_binding ∷ [])).status ≡ "satisfies")
    ↔ All (Satisfies expected []) (binding ∷ stale_binding ∷ [])
evaluate_binding_set_iff_example =
    evaluate_binding_set_iff expected [] (binding ∷ stale_binding ∷ [])

evaluate-perm_example :
    (evaluate_binding_set expected [] (binding ∷ stale_binding ∷ [])).status
    ≡ (evaluate_binding_set expected [] (stale_binding ∷ binding ∷ [])).status
evaluate-perm_example =
    evaluate-perm expected [] (binding ∷ stale_binding ∷ []) (stale_binding ∷ binding ∷ [])
      (Permᴰ.swap refl refl)
