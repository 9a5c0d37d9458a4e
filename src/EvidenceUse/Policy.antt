-- ===== src/EvidenceUse/Policy.antt =====
-- mas/research_evidence/automation_roi_use_policy.py: whether a set of evidence bindings may feed
-- the ROI calculation. The JSON of the policy's parameters and its fingerprint (SHA-256) are
-- arguments, as texts; an instant is a number of microseconds.
use v.Prelude.{
  ℕ, suc, String, Bool, true, false, not, ◌&&◌, ◌||◌, Option, none, some, List, [], ◌∷◌, ◌++◌, any,
  str_eq, ◌==◌, ltb, if◌then◌else◌,
}
use Prim.Native.Nat.{Ordering}
use Prim.Native.String.{◌++◌ as ◌+++◌, compare}

-- The Literal types of binding_models.py, freshness_models.py and claim_support_models.py.
pub data BindingReviewStatus : Type 0 where
  not_assessed approved rejected needs_revision withdrawn : BindingReviewStatus

pub data FreshnessStatus : Type 0 where
  fresh stale unknown not_applicable : FreshnessStatus

pub data DriftStatus : Type 0 where
  not_assessed no_material_drift material_drift indeterminate : DriftStatus

pub data ConsumerDisposition : Type 0 where
  meets_contract qualified does_not_meet_contract indeterminate : ConsumerDisposition

-- The fields of `ResearchEvidenceConsumerInputBindingRecord` that the policy reads; of the claim
-- fields only whether they are None.
pub record Binding : Type 0 where
  pub id : String
  pub input_key : String
  pub project_id : String
  pub consumer_contract : String
  pub consumer_contract_version : String
  pub binding_set_id : String
  pub calculation_kind : Option String
  pub policy_identifier : String
  pub policy_version : String
  pub policy_parameters_json : String
  pub policy_fingerprint : String
  pub evaluator_version : String
  pub freshness_as_of : ℕ
  pub availability_status : Bool
  pub lineage_is_current : Bool
  pub review_status : BindingReviewStatus
  pub freshness_status : FreshnessStatus
  pub drift_status : DriftStatus
  pub consumer_disposition : ConsumerDisposition
  pub disposition_reasons : List String
  pub claim_intake_item_id : Option String
  pub claim_support_assessment_id : Option String
  pub locator_resolution : Option String
  pub evidence_linkage : Option String
  pub semantic_relationship : Option String

pub record PolicyEvaluation : Type 0 where
  pub status : String
  pub reasons : List String

-- What the caller expects of every binding, and the module's constants that it computes.
pub record Expected : Type 0 where
  pub project_id : String
  pub binding_set_id : String
  pub freshness_as_of : ℕ
  pub policy_parameters : String
  pub policy_fingerprint : String

abbrev pub required_roles : List String
required_roles =
    "baseline_hours_per_period" ∷ "post_automation_hours_per_period" ∷ "fully_loaded_rate_per_hour"
    ∷ "periods_per_year" ∷ "annual_recurring_cost" ∷ "one_time_implementation_cost" ∷ []

abbrev pub reason : String → String → String
reason role code = "role:" +++ (role +++ (":" +++ code))

abbrev pub reason_if : Bool → String → String → List String
reason_if test role code = if test then reason role code ∷ [] else []

abbrev is_some_text : Option String → Bool
is_some_text none = false
is_some_text (some t) = true

abbrev differs : Option String → String → Bool
differs none s = true
differs (some t) s = not (str_eq t s)

-- `_append_set_mismatches`
unfoldable pub set_mismatches : Expected → Binding → List String
set_mismatches e b =
    reason_if (not (str_eq b.project_id e.project_id)) b.input_key "project_mismatch"
    ++ (reason_if (not (str_eq b.consumer_contract "deterministic_calculation")) b.input_key
          "consumer_contract_mismatch"
        ++ (reason_if (not (str_eq b.consumer_contract_version "automation_roi.evidence_input.v1"))
              b.input_key "consumer_contract_version_mismatch"
            ++ (reason_if (not (str_eq b.binding_set_id e.binding_set_id)) b.input_key
                  "binding_set_mismatch"
                ++ (reason_if (differs b.calculation_kind "automation_roi") b.input_key
                      "calculation_kind_mismatch"
                    ++ (reason_if (not (str_eq b.policy_identifier "automation_roi.evidence_use"))
                          b.input_key "policy_identifier_mismatch"
                        ++ (reason_if (not (str_eq b.policy_version "1")) b.input_key
                              "policy_version_mismatch"
                            ++ (reason_if
                                  (not (str_eq b.policy_parameters_json e.policy_parameters))
                                  b.input_key "policy_parameters_mismatch"
                                ++ (reason_if
                                      (not (str_eq b.policy_fingerprint e.policy_fingerprint))
                                      b.input_key "policy_fingerprint_mismatch"
                                    ++ (reason_if
                                          (not (
                                            str_eq b.evaluator_version
                                              "automation_roi.evidence_use.evaluator.v1"))
                                          b.input_key "evaluator_version_mismatch"
                                        ++ (reason_if (not (b.freshness_as_of == e.freshness_as_of))
                                              b.input_key "freshness_as_of_mismatch"
                                            ++ reason_if
                                                (is_some_text b.claim_intake_item_id
                                                  || (is_some_text b.claim_support_assessment_id
                                                      || (is_some_text b.locator_resolution
                                                          || (is_some_text b.evidence_linkage
                                                            || is_some_text
                                                            b.semantic_relationship))))
                                                b.input_key "claim_semantics_present"))))))))))

abbrev review_failure : BindingReviewStatus → String → List String
review_failure rejected role = reason role "review_rejected" ∷ []
review_failure needs_revision role = reason role "review_needs_revision" ∷ []
review_failure withdrawn role = reason role "review_withdrawn" ∷ []
review_failure _ role = []

abbrev drift_doubt : DriftStatus → String → List String
drift_doubt DriftStatus.not_assessed role = reason role "drift_not_assessed" ∷ []
drift_doubt DriftStatus.indeterminate role = reason role "drift_indeterminate" ∷ []
drift_doubt _ role = []

abbrev is_material : DriftStatus → Bool
is_material material_drift = true
is_material _ = false

abbrev is_unassessed : BindingReviewStatus → Bool
is_unassessed BindingReviewStatus.not_assessed = true
is_unassessed _ = false

abbrev is_unknown : FreshnessStatus → Bool
is_unknown unknown = true
is_unknown _ = false

abbrev is_stale : FreshnessStatus → Bool
is_stale stale = true
is_stale _ = false

abbrev fails_contract : ConsumerDisposition → Bool
fails_contract does_not_meet_contract = true
fails_contract _ = false

abbrev is_undecided : ConsumerDisposition → Bool
is_undecided ConsumerDisposition.indeterminate = true
is_undecided _ = false

abbrev is_qualified : ConsumerDisposition → Bool
is_qualified qualified = true
is_qualified _ = false

-- The reasons that one binding adds to the lists `hard` (those of its set, then its own),
-- `indeterminate` and `qualified`.
unfoldable pub own_failures : List String → Binding → List String
own_failures successors b =
    reason_if (any (λ s. str_eq s b.id) successors) b.input_key "binding_record_superseded"
    ++ (reason_if (not b.availability_status) b.input_key "evidence_unavailable"
        ++ (reason_if (not b.lineage_is_current) b.input_key "lineage_not_current"
            ++ (review_failure b.review_status b.input_key
                ++ (reason_if (is_material b.drift_status) b.input_key "material_drift"
                    ++ (reason_if (fails_contract b.consumer_disposition) b.input_key
                          "consumer_does_not_meet_contract"
                        ++ reason_if
                            (any (λ r. str_eq r "contradiction_declared") b.disposition_reasons)
                            b.input_key "contradiction_declared")))))

unfoldable pub hard_reasons : Expected → List String → Binding → List String
hard_reasons e successors b = set_mismatches e b ++ own_failures successors b

unfoldable pub indeterminate_reasons : Binding → List String
indeterminate_reasons b =
    reason_if (is_unassessed b.review_status) b.input_key "review_not_assessed"
    ++ (reason_if (is_unknown b.freshness_status) b.input_key "freshness_unknown"
        ++ (drift_doubt b.drift_status b.input_key
            ++ reason_if (is_undecided b.consumer_disposition) b.input_key
                "consumer_indeterminate"))

unfoldable pub qualified_reasons : Binding → List String
qualified_reasons b =
    reason_if (is_stale b.freshness_status) b.input_key "freshness_stale"
    ++ reason_if (is_qualified b.consumer_disposition) b.input_key "consumer_qualified"

-- `_role_order`: the place among the required roles, or their number
unfoldable pub role_order : String → List String → ℕ
role_order role [] = 0
role_order role (r ∷ rs) = let rest = role_order role rs in if str_eq r role then 0 else suc rest

abbrev text_before : String → String → Bool
text_before s t = elim (compare s t) [ Ordering.lt ↦ true | _ ↦ false ]

unfoldable pub sorts_before : Binding → Binding → Bool
unfolding role_order
sorts_before a b =
    ltb (role_order a.input_key required_roles) (role_order b.input_key required_roles)
    || (role_order a.input_key required_roles == role_order b.input_key required_roles
        && text_before a.input_key b.input_key)

-- sorted(bindings, key=...): stable
unfoldable pub insert_sorted : Binding → List Binding → List Binding
unfolding sorts_before
insert_sorted b [] = b ∷ []
insert_sorted b (c ∷ cs) = if sorts_before c b then c ∷ insert_sorted b cs else b ∷ c ∷ cs

unfoldable pub sort_bindings : List Binding → List Binding
unfolding insert_sorted
sort_bindings [] = []
sort_bindings (b ∷ bs) = insert_sorted b (sort_bindings bs)

-- The loop over the ordered bindings, for one of its three lists.
unfoldable pub collect : (Binding → List String) → List Binding → List String
collect f [] = []
collect f (b ∷ bs) = f b ++ collect f bs

-- tuple(dict.fromkeys(values)): the first of equal texts
unfoldable pub ordered_unique : List String → List String → List String
ordered_unique seen [] = []
ordered_unique seen (t ∷ ts) = elim (any (λ s. str_eq s t) seen) [
  | true ↦ ordered_unique seen ts
  | false ↦ t ∷ ordered_unique (t ∷ seen) ts
]

abbrev pub is_empty : List String → Bool
is_empty [] = true
is_empty (t ∷ ts) = false

unfoldable pub verdict : List String → List String → List String → PolicyEvaluation
verdict hard unsure limited =
    if not (is_empty hard)
    then record { status = "does_not_satisfy"; reasons = ordered_unique [] hard }
    else if not (is_empty unsure)
    then record { status = "indeterminate"; reasons = ordered_unique [] unsure }
    else if not (is_empty limited)
    then record { status = "qualified"; reasons = ordered_unique [] limited }
    else record { status = "satisfies"; reasons = "policy_satisfied" ∷ [] }

unfoldable pub evaluate_binding_set : Expected → List String → List Binding → PolicyEvaluation
unfolding verdict
evaluate_binding_set e successors bindings =
    let ordered = sort_bindings bindings in
    verdict (collect (hard_reasons e successors) ordered) (collect indeterminate_reasons ordered)
      (collect qualified_reasons ordered)
