-- ===== src/Roi/Inputs.antt =====
-- mas/knowledge/automation_roi/calculator.py: an input of the engine, its compatibility with the
-- database, and the digests. SHA-256 of a text in UTF-8 is the argument `sha256`.
use v.Prelude.{
  String, Bool, true, false, not, ◌||◌, Option, none, some, List, [], ◌∷◌, ◌++◌, str_eq,
  if◌then◌else◌,
}
use v.Prelude.Decimal.{DecimalOps}
use v.Prelude.Dict.{Dict, get}
use v.Prelude.Texts.{one_of, join}

abbrev pub formula_version : String
formula_version = "automation_roi.v1"

abbrev pub roles : List String
roles =
    "baseline_hours_per_period" ∷ "post_automation_hours_per_period" ∷ "fully_loaded_rate_per_hour"
    ∷ "periods_per_year" ∷ "annual_recurring_cost" ∷ "one_time_implementation_cost" ∷ []

abbrev pub hours_roles : List String
hours_roles = "baseline_hours_per_period" ∷ "post_automation_hours_per_period" ∷ []

abbrev pub field_sep : String
field_sep = "\u{1f}"

abbrev pub rec_sep : String
rec_sep = "\u{1e}"

abbrev pub null : String
null = "∅"

pub record ResolvedInput (D : Type 0) : Type 0 where
  pub input_role : String
  pub numeric_value : D
  pub unit : String
  pub currency_code : Option String
  pub period : Option String
  pub time_unit : Option String
  pub approved_calculation_input_id : Option String
  pub candidate_fact_revision_id : Option String
  pub approval_decision_id : Option String

-- text or _NULL
abbrev pub or_null : Option String → String
or_null none = null
or_null (some t) = if str_eq t "" then null else t

-- not text
abbrev pub is_blank : Option String → Bool
is_blank none = true
is_blank (some t) = str_eq t ""

-- option == text
abbrev pub is_text : Option String → String → Bool
is_text none s = false
is_text (some t) s = str_eq t s

module _ {D : Type 0} ⦃d : DecimalOps D⦄ where
  abbrev sign_reason : D → Option String
  sign_reason value = if d.ltb value (d.of_ℕ 0) then some "value_must_be_non_negative" else none

  -- `input_compatibility_reason`; a value that is a Decimal already
  unfoldable pub input_compatibility_reason :
      String → D → Option String → Option String → Option String → Option String
  input_compatibility_reason role value unit currency_code time_unit =
      if one_of hours_roles role
      then (if is_text time_unit "hours"
          then sign_reason value
          else some "hours_role_requires_time_unit_hours")
      else if str_eq role "fully_loaded_rate_per_hour"
      then (if not (is_text unit "per_hour")
          then some "fully_loaded_rate_per_hour_requires_per_hour"
          else if is_blank currency_code
          then some "fully_loaded_rate_per_hour_requires_currency"
          else sign_reason value)
      else if str_eq role "periods_per_year"
      then (if not (d.equal value (d.to_integral_value value)) || d.ltb value (d.of_ℕ 1)
          then some "periods_per_year_requires_integer_at_least_one"
          else none)
      else if str_eq role "annual_recurring_cost" || str_eq role "one_time_implementation_cost"
      then (if is_blank currency_code
          then some "money_role_requires_currency"
          else sign_reason value)
      else none

  unfoldable pub canonical_decimal : D → String
  canonical_decimal value =
      let text = d.format (d.normalize value) in
      if d.equal (d.normalize value) (d.of_ℕ 0)
      then "0"
      else if str_eq text "-0" || str_eq text "0E+0"
      then "0"
      else text

  -- The part of a value digest that one input gives.
  abbrev pub value_part : String → ResolvedInput D → String
  value_part role it = join field_sep (
      role
      ∷ canonical_decimal it.numeric_value
      ∷ or_null (some it.unit)
      ∷ or_null it.currency_code
      ∷ or_null it.period
      ∷ or_null it.time_unit
      ∷ [])

  abbrev pub provenance_part : String → ResolvedInput D → String
  provenance_part role it = join field_sep (
      role
      ∷ or_null it.approved_calculation_input_id
      ∷ or_null it.candidate_fact_revision_id
      ∷ or_null it.approval_decision_id
      ∷ [])

-- `for role in ROLES: parts.append(... inputs[role] ...)`; none where a role is missing
abbrev pub parts_of :
    {A : Type 0} → (String → A → String) → Dict A → List String → Option (List String)
parts_of f inputs [] = some []
parts_of f inputs (role ∷ rs) = elim (get inputs role) [
  | none ↦ none
  | some it ↦ elim (parts_of f inputs rs) [ none ↦ none | some ps ↦ some (f role it ∷ ps) ]
]

abbrev pub digest_of : (String → String) → List String → Option (List String) → Option String
digest_of sha256 first none = none
digest_of sha256 first (some ps) = some (sha256 (join rec_sep (first ++ ps)))

module _ {D : Type 0} ⦃d : DecimalOps D⦄ (sha256 : String → String) where
  unfoldable pub formula_input_digest : Dict (ResolvedInput D) → Option String
  formula_input_digest inputs =
      digest_of sha256 (formula_version ∷ []) (parts_of value_part inputs roles)

  unfoldable pub provenance_fingerprint : Dict (ResolvedInput D) → Option String
  provenance_fingerprint inputs =
      digest_of sha256 (formula_version ∷ []) (parts_of provenance_part inputs roles)
