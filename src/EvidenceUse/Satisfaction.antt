-- ===== src/EvidenceUse/Satisfaction.antt =====
-- mas/research_evidence/automation_roi_use_policy.py: when a set of bindings satisfies the policy.
use v.Prelude.{
  String, ◌≡◌, ◌⊎◌, ◌↔◌, refl, Bool, true, false, not, ◌&&◌, Option, none, some, List, [], ◌∷◌, any,
  all, All, arith, eq_iff, str_eq,
}
use v.EvidenceUse.Policy.{
  approved, fresh, not_applicable, no_material_drift, meets_contract, Binding, Expected, is_empty,
  set_mismatches, own_failures, hard_reasons, indeterminate_reasons, qualified_reasons,
  evaluate_binding_set,
}
use v.EvidenceUse.Verdict.{is_empty-append, is_usable, is_certain, is_unqualified, evaluate-status}

-- The binding is of the set, the contract and the policy that the caller names, and says nothing of
-- a claim.
pub record Matches (e : Expected) (b : Binding) : Type 0 where
  pub project : b.project_id ≡ e.project_id
  pub contract : b.consumer_contract ≡ "deterministic_calculation"
  pub contract_version : b.consumer_contract_version ≡ "automation_roi.evidence_input.v1"
  pub set : b.binding_set_id ≡ e.binding_set_id
  pub kind : b.calculation_kind ≡ some "automation_roi"
  pub policy : b.policy_identifier ≡ "automation_roi.evidence_use"
  pub policy_version : b.policy_version ≡ "1"
  pub parameters : b.policy_parameters_json ≡ e.policy_parameters
  pub fingerprint : b.policy_fingerprint ≡ e.policy_fingerprint
  pub evaluator : b.evaluator_version ≡ "automation_roi.evidence_use.evaluator.v1"
  pub as_of : b.freshness_as_of ≡ e.freshness_as_of
  pub no_claim_item : b.claim_intake_item_id ≡ none
  pub no_claim_support : b.claim_support_assessment_id ≡ none
  pub no_locator : b.locator_resolution ≡ none
  pub no_linkage : b.evidence_linkage ≡ none
  pub no_relationship : b.semantic_relationship ≡ none

pub record Satisfies (e : Expected) (successors : List String) (b : Binding) : Type 0 where
  pub matches : Matches e b
  pub not_superseded : any (λ s. str_eq s b.id) successors ≡ false
  pub available : b.availability_status ≡ true
  pub lineage : b.lineage_is_current ≡ true
  pub review : b.review_status ≡ approved
  pub drift : b.drift_status ≡ no_material_drift
  pub freshness : (b.freshness_status ≡ fresh) ⊎ (b.freshness_status ≡ not_applicable)
  pub disposition : b.consumer_disposition ≡ meets_contract
  pub no_contradiction : any (λ r. str_eq r "contradiction_declared") b.disposition_reasons ≡ false

set_mismatches-Matches :
    (e : Expected) (b : Binding) → is_empty (set_mismatches e b) ≡ true → Matches e b
unfolding set_mismatches
set_mismatches-Matches e b h = ground (
  arith,
  kind_text b.calculation_kind,
  eq_iff b.project_id e.project_id,
  eq_iff b.consumer_contract "deterministic_calculation",
  eq_iff b.consumer_contract_version "automation_roi.evidence_input.v1",
  eq_iff b.binding_set_id e.binding_set_id,
  eq_iff b.policy_identifier "automation_roi.evidence_use",
  eq_iff b.policy_version "1",
  eq_iff b.policy_parameters_json e.policy_parameters,
  eq_iff b.policy_fingerprint e.policy_fingerprint,
  eq_iff b.evaluator_version "automation_roi.evidence_use.evaluator.v1",
)
  where
    kind_text :
        (o : Option String)
        → (elim o [ none ↦ true | some t ↦ not (str_eq t "automation_roi") ]) ≡ false
        → o ≡ some "automation_roi"
    kind_text none h = cc
    kind_text (some t) h = ground (arith, eq_iff t "automation_roi")

Matches-set_mismatches :
    (e : Expected) (b : Binding) → Matches e b → is_empty (set_mismatches e b) ≡ true
unfolding set_mismatches
Matches-set_mismatches e b m = ground (
  arith,
  eq_iff "automation_roi" "automation_roi",
  eq_iff b.project_id e.project_id,
  eq_iff b.consumer_contract "deterministic_calculation",
  eq_iff b.consumer_contract_version "automation_roi.evidence_input.v1",
  eq_iff b.binding_set_id e.binding_set_id,
  eq_iff b.policy_identifier "automation_roi.evidence_use",
  eq_iff b.policy_version "1",
  eq_iff b.policy_parameters_json e.policy_parameters,
  eq_iff b.policy_fingerprint e.policy_fingerprint,
  eq_iff b.evaluator_version "automation_roi.evidence_use.evaluator.v1",
)

module _ (e : Expected) (successors : List String) where
  abbrev is_clean : Binding → Bool
  is_clean b =
      is_usable e successors b && (is_certain e successors b && is_unqualified e successors b)

  clean-Satisfies : (b : Binding) → is_clean b ≡ true → Satisfies e successors b
  unfolding hard_reasons own_failures indeterminate_reasons qualified_reasons
  clean-Satisfies b h = ground (
    arith,
    is_empty-append (set_mismatches e b) (own_failures successors b),
    set_mismatches-Matches e b,
  )

  Satisfies-clean : (b : Binding) → Satisfies e successors b → is_clean b ≡ true
  unfolding hard_reasons own_failures indeterminate_reasons qualified_reasons
  Satisfies-clean b s = ground (
    arith,
    is_empty-append (set_mismatches e b) (own_failures successors b),
    Matches-set_mismatches e b,
  )

  abbrev is_verdict : List Binding → Bool
  is_verdict bs =
      all (is_usable e successors) bs
      && (all (is_certain e successors) bs && all (is_unqualified e successors) bs)

  clean-All : (bs : List Binding) → is_verdict bs ≡ true → All (Satisfies e successors) bs
  clean-All [] h = tt
  clean-All (b ∷ bs) h = (clean-Satisfies b (ground arith), clean-All bs (ground arith))

  All-clean : (bs : List Binding) → All (Satisfies e successors) bs → is_verdict bs ≡ true
  All-clean [] h = refl
  All-clean (b ∷ bs) h = ground (arith, Satisfies-clean b h.0, All-clean bs h.1)

  -- A set of bindings satisfies the policy exactly if each binding does: it is of the expected set,
  -- contract and policy, says nothing of a claim, is not superseded, available, of current lineage,
  -- approved, without material drift, fresh or of a freshness that does not apply, meets its
  -- contract and declares no contradiction.
  pub evaluate_binding_set_iff :
      (bs : List Binding)
      → ((evaluate_binding_set e successors bs).status ≡ "satisfies")
        ↔ All (Satisfies e successors) bs
  evaluate_binding_set_iff bs = (
    λ h. clean-All bs (
        ground (
          arith,
          h,
          evaluate-status e successors bs,
          eq_iff "does_not_satisfy" "satisfies",
          eq_iff "indeterminate" "satisfies",
          eq_iff "qualified" "satisfies",
        )),
    λ h. ground (arith, evaluate-status e successors bs, All-clean bs h),
  )
