-- ===== src/Roi/Calculator.antt =====
-- mas/knowledge/automation_roi/calculator.py: `compute_automation_roi` and the identity of a
-- calculate request. An exception is a value: its message is its arguments, as is that of a
-- diagnostic, whose fixed text is left out. `key_error` is the KeyError of `inputs[role]`, which the shape check is there to rule out.
use v.Prelude.{
  String, Bool, true, false, not, ◌||◌, Option, none, some, List, [], ◌∷◌, ◌++◌, str_eq, any,
  if◌then◌else◌,
}
use v.Prelude.Decimal.{DecimalOps}
use v.Prelude.Dict.{Dict, get, keys}
use v.Prelude.Texts.{join, sorted, difference, same_set}
use v.Roi.Inputs.{
  ResolvedInput, roles, formula_version, field_sep, is_text, parts_of, digest_of,
  formula_input_digest, provenance_fingerprint,
}

pub record RoiComputation (D : Type 0) : Type 0 where
  pub formula_version : String
  pub status : String
  pub roi_percent_status : String
  pub currency_code : Option String
  pub annual_labor_savings : Option D
  pub annual_net_benefit : Option D
  pub first_year_net_benefit : Option D
  pub first_year_roi_percent : Option D
  pub formula_input_digest : String
  pub provenance_fingerprint : String
  pub diagnostics : Dict (List String)

pub data RoiResult (D : Type 0) : Type 0 where
  computed : RoiComputation D → RoiResult D
  shape_error : (missing extra : List String) → RoiResult D
  role_error : (role input_role : String) → RoiResult D
  key_error : RoiResult D

-- The inputs of the six roles.
pub record Six (D : Type 0) : Type 0 where
  pub baseline : ResolvedInput D
  pub post : ResolvedInput D
  pub rate : ResolvedInput D
  pub periods_per_year : ResolvedInput D
  pub recurring : ResolvedInput D
  pub one_time : ResolvedInput D

abbrev pub option_eq : Option String → Option String → Bool
option_eq none none = true
option_eq none (some t) = false
option_eq (some s) none = false
option_eq (some s) (some t) = str_eq s t

-- str(option)
abbrev pub shown : Option String → String
shown none = "None"
shown (some t) = t

-- A set of options, as the list of its members.
abbrev pub members : List (Option String) → List (Option String)
members [] = []
members (o ∷ os) = let rest = members os in if any (option_eq o) os then rest else o ∷ rest

abbrev pub all_shown : List (Option String) → List String
all_shown [] = []
all_shown (o ∷ os) = shown o ∷ all_shown os

abbrev pub is_nil : List String → Bool
is_nil [] = true
is_nil (t ∷ ts) = false

-- len(set) == 1
abbrev pub one_member : List (Option String) → Bool
one_member (o ∷ []) = true
one_member _ = false

module _ {D : Type 0} where
  -- The loop over the items: the first whose role is not its key.
  abbrev pub mismatched : Dict (ResolvedInput D) → Option (String × String)
  mismatched [] = none
  mismatched ((role, it) ∷ items) =
      if str_eq it.input_role role then mismatched items else some (role, it.input_role)

  -- `_require_six_roles`: none where it returns
  unfoldable pub require_six_roles : Dict (ResolvedInput D) → Option (RoiResult D)
  require_six_roles inputs =
      if not (same_set (keys inputs) roles)
      then some (shape_error (difference roles (keys inputs)) (difference (keys inputs) roles))
      else elim (mismatched inputs) [ none ↦ none | some (role, r) ↦ some (role_error role r) ]

  -- The six lookups.
  unfoldable pub six_of : Dict (ResolvedInput D) → Option (Six D)
  six_of inputs = elim (get inputs "baseline_hours_per_period") [
    | none ↦ none
    | some a ↦ elim (get inputs "post_automation_hours_per_period") [
      | none ↦ none
      | some b ↦ elim (get inputs "fully_loaded_rate_per_hour") [
        | none ↦ none
        | some c ↦ elim (get inputs "periods_per_year") [
          | none ↦ none
          | some e ↦ elim (get inputs "annual_recurring_cost") [
            | none ↦ none
            | some f ↦ elim (get inputs "one_time_implementation_cost") [
              | none ↦ none
              | some g ↦ some (record {
                baseline = a;
                post = b;
                rate = c;
                periods_per_year = e;
                recurring = f;
                one_time = g;
              })
            ]
          ]
        ]
      ]
    ]
  ]

  -- {inputs[r].currency_code for r in MONEY_ROLES}
  abbrev pub currencies : Six D → List (Option String)
  currencies x =
      members (x.rate.currency_code ∷ x.recurring.currency_code ∷ x.one_time.currency_code ∷ [])

  abbrev pub periods : Six D → List (Option String)
  periods x = members (x.baseline.period ∷ x.post.period ∷ [])

module _ {D : Type 0} ⦃d : DecimalOps D⦄ where
  abbrev blocked : String → String → String → List String → RoiComputation D
  blocked digest provenance reason_key detail = record {
    formula_version = formula_version;
    status = "blocked";
    roi_percent_status = "blocked";
    currency_code = none;
    annual_labor_savings = none;
    annual_net_benefit = none;
    first_year_net_benefit = none;
    first_year_roi_percent = none;
    formula_input_digest = digest;
    provenance_fingerprint = provenance;
    diagnostics = (reason_key, detail) ∷ [];
  }

  abbrev pub delta : Six D → D
  delta x = d.sub x.baseline.numeric_value x.post.numeric_value

  abbrev pub labor_savings : Six D → D
  labor_savings x = d.mul (d.mul (delta x) x.rate.numeric_value) x.periods_per_year.numeric_value

  abbrev pub net_benefit : Six D → D
  net_benefit x = d.sub (labor_savings x) x.recurring.numeric_value

  abbrev pub first_year : Six D → D
  first_year x = d.sub (net_benefit x) x.one_time.numeric_value

  abbrev hours_note : Six D → Dict (List String)
  hours_note x = if d.ltb (delta x) (d.of_ℕ 0) then ("negative_hours_delta", []) ∷ [] else []

  abbrev finished :
      String → String → Six D → String → String → Option D → Dict (List String) → RoiComputation D
  finished digest provenance x status percent_status percent notes = record {
    formula_version = formula_version;
    status = status;
    roi_percent_status = percent_status;
    currency_code = x.rate.currency_code;
    annual_labor_savings = some (labor_savings x);
    annual_net_benefit = some (net_benefit x);
    first_year_net_benefit = some (first_year x);
    first_year_roi_percent = percent;
    formula_input_digest = digest;
    provenance_fingerprint = provenance;
    diagnostics = notes;
  }

  -- `compute_automation_roi` after the shape check, on the six inputs
  unfoldable pub compute_six : String → String → Six D → List String → RoiComputation D
  compute_six digest provenance x unavailable_roles =
      if not (is_nil unavailable_roles)
      then blocked digest provenance "unavailable_evidence" (sorted unavailable_roles)
      else if not (one_member (currencies x)) || any (option_eq none) (currencies x)
      then blocked digest provenance "currency_mismatch" (sorted (all_shown (currencies x)))
      else if not (is_text x.baseline.time_unit "hours") || not (is_text x.post.time_unit "hours")
      then blocked digest provenance "unit_mismatch" []
      else if not (one_member (periods x))
      then blocked digest provenance "period_mismatch" (sorted (all_shown (periods x)))
      else if d.equal x.one_time.numeric_value (d.of_ℕ 0)
      then finished digest provenance x "not_applicable" "not_applicable" none
          (hours_note x ++ ("roi_percent", []) ∷ [])
      else finished digest provenance x "valid" "computed"
          (some (d.mul (d.div (first_year x) x.one_time.numeric_value) (d.of_ℕ 100))) (hours_note x)

  abbrev with_digests : Option String → Option String → Option (Six D) → List String → RoiResult D
  with_digests (some digest) (some provenance) (some x) unavailable_roles =
      computed (compute_six digest provenance x unavailable_roles)
  with_digests _ _ _ unavailable_roles = key_error

  unfoldable pub compute_automation_roi :
      (String → String) → Dict (ResolvedInput D) → List String → RoiResult D
  unfolding require_six_roles six_of compute_six
  compute_automation_roi sha256 inputs unavailable_roles = elim (require_six_roles inputs) [
    | some error ↦ error
    | none ↦
        with_digests (formula_input_digest sha256 inputs) (provenance_fingerprint sha256 inputs)
          (six_of inputs) unavailable_roles
  ]

-- What `canonical_request_digest` does: a digest, the ValueError of a wrong set of roles, or the
-- KeyError that the check rules out.
pub data RequestDigest : Type 0 where
  digested : String → RequestDigest
  wrong_roles : (missing extra : List String) → RequestDigest
  key_error : RequestDigest

abbrev pub request_part : String → String → String
request_part role id = join field_sep (role ∷ id ∷ [])

abbrev to_digest : Option String → RequestDigest
to_digest none = RequestDigest.key_error
to_digest (some t) = digested t

unfoldable pub canonical_request_digest : (String → String) → String → Dict String → RequestDigest
canonical_request_digest sha256 project_id inputs_by_role =
    if not (same_set (keys inputs_by_role) roles)
    then wrong_roles (difference roles (keys inputs_by_role))
        (difference (keys inputs_by_role) roles)
    else to_digest (
        digest_of sha256 (project_id ∷ formula_version ∷ [])
          (parts_of request_part inputs_by_role (sorted roles)))
