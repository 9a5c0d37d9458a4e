-- ===== src/Roi/Examples.antt =====
-- Tests of the ROI engine (mas/knowledge/automation_roi/calculator.py), and the theorems at concrete
-- inputs.
use v.Prelude.{
  ℕ, ◌-◌, ◌*◌, String, ◌≡◌, ◌≢◌, ◌↔◌, refl, Option, none, some, List, [], ◌∷◌, ltb, ◌==◌,
}
use v.Prelude.Decimal.{DecimalOps}
use v.Prelude.Dict.{Dict, get, keys}
use v.Roi.Inputs.{ResolvedInput, roles, formula_input_digest, provenance_fingerprint}
use v.Roi.Calculator.{
  RoiResult, computed, RoiComputation, Six, compute_six, compute_automation_roi, six_of,
}
use v.Roi.Shape.{compute_iff, HasKeys, HasRoles}
use v.Roi.Status.{compute-status_iff, IsComparable}
use v.Roi.Digest.{SameValue, SameValues}

-- The natural numbers, with a subtraction that stops at 0 and a division by 1; their text is "n".
instance abbrev nat_decimals : DecimalOps ℕ
nat_decimals = record {
  of_ℕ = λ n. n;
  sub = λ a b. a - b;
  mul = λ a b. a * b;
  div = λ a b. a;
  ltb = λ a b. ltb a b;
  equal = λ a b. a == b;
  normalize = λ a. a;
  to_integral_value = λ a. a;
  format = λ a. "n";
}

-- In place of SHA-256.
abbrev same_text : String → String
same_text t = t

abbrev no_roles : List String
no_roles = []

abbrev item : String → ℕ → Option String → Option String → ResolvedInput ℕ
item role value currency time_unit = record {
  input_role = role;
  numeric_value = value;
  unit = "per_hour";
  currency_code = currency;
  period = none;
  time_unit = time_unit;
  approved_calculation_input_id = none;
  candidate_fact_revision_id = none;
  approval_decision_id = none;
}

abbrev six : Option String → ℕ → Six ℕ
six currency cost = record {
  baseline = item "baseline_hours_per_period" 10 none (some "hours");
  post = item "post_automation_hours_per_period" 4 none (some "hours");
  rate = item "fully_loaded_rate_per_hour" 5 currency none;
  periods_per_year = item "periods_per_year" 12 none none;
  recurring = item "annual_recurring_cost" 60 currency none;
  one_time = item "one_time_implementation_cost" cost currency none;
}

abbrev inputs : Option String → ℕ → Dict (ResolvedInput ℕ)
inputs currency cost =
    ("one_time_implementation_cost", (six currency cost).one_time)
    ∷ ("baseline_hours_per_period", (six currency cost).baseline)
    ∷ ("post_automation_hours_per_period", (six currency cost).post)
    ∷ ("fully_loaded_rate_per_hour", (six currency cost).rate)
    ∷ ("periods_per_year", (six currency cost).periods_per_year)
    ∷ ("annual_recurring_cost", (six currency cost).recurring)
    ∷ []

abbrev result : Option String → ℕ → RoiComputation ℕ
result currency cost = elim (compute_automation_roi same_text (inputs currency cost) []) [
  | computed r ↦ r
  | _ ↦ compute_six "" "" (six currency cost) []
]

computes :
    compute_automation_roi same_text (inputs (some "EUR") 30) [] ≡ computed (result (some "EUR") 30)
unfolding compute_automation_roi keys formula_input_digest get provenance_fingerprint
computes = refl

net_benefit_test : (result (some "EUR") 30).first_year_net_benefit ≡ some 270
unfolding compute_automation_roi keys formula_input_digest get provenance_fingerprint
net_benefit_test = refl

no_currency : compute_automation_roi same_text (inputs none 30) [] ≡ computed (result none 30)
unfolding compute_automation_roi keys formula_input_digest get provenance_fingerprint
no_currency = refl

empty_currency :
    compute_automation_roi same_text (inputs (some "") 30) [] ≡ computed (result (some "") 30)
unfolding compute_automation_roi keys formula_input_digest get provenance_fingerprint
empty_currency = refl

six_test : six_of (inputs (some "EUR") 30) ≡ some (six (some "EUR") 30)
unfolding six_of get
six_test = refl

no_currency_six : six_of (inputs none 30) ≡ some (six none 30)
unfolding six_of get
no_currency_six = refl

empty_currency_six : six_of (inputs (some "") 30) ≡ some (six (some "") 30)
unfolding six_of get
empty_currency_six = refl

same_value : (a : ResolvedInput ℕ) → SameValue a a
same_value a = record {
  value = refl;
  unit = refl;
  currency = refl;
  period = refl;
  time_unit = refl;
}

same_values : (x : Six ℕ) → SameValues x x
same_values x = record {
  baseline = same_value x.baseline;
  post = same_value x.post;
  rate = same_value x.rate;
  periods_per_year = same_value x.periods_per_year;
  recurring = same_value x.recurring;
  one_time = same_value x.one_time;
}

compute_iff_example :
    (((r : RoiComputation ℕ) × (compute_automation_roi same_text (inputs (some "EUR") 30) []
          ≡ computed r))
      ↔ (HasRoles (inputs (some "EUR") 30) × HasKeys (inputs (some "EUR") 30) roles))
    × (compute_automation_roi same_text (inputs (some "EUR") 30) [] ≢ RoiResult.key_error)
compute_iff_example = compute_iff same_text (inputs (some "EUR") 30) []

compute-status_iff_example :
    ((result (some "EUR") 30).status ≢ "blocked")
    ↔ ((no_roles ≡ []) × IsComparable (six (some "EUR") 30))
compute-status_iff_example =
    compute-status_iff same_text (inputs (some "EUR") 30) [] (six (some "EUR") 30)
      (result (some "EUR") 30) computes six_test
