-- ===== src/Roi/Digest.antt =====
-- mas/knowledge/automation_roi/calculator.py: which inputs share a digest and a result, and what the
-- compatibility of the inputs with the database gives.
use v.Prelude.{String, ◌≡◌, ◌≢◌, ◌↔◌, refl, Option, none, some, List, [], ◌∷◌, arith}
use v.Prelude.Decimal.{DecimalOps}
use v.Prelude.Dict.{Dict}
use v.Prelude.Texts.{join}
use v.Roi.Inputs.{
  ResolvedInput, formula_input_digest, formula_version, rec_sep, value_part,
  input_compatibility_reason,
}
use v.Roi.Calculator.{computed, RoiComputation, Six, six_of, compute_six, compute_automation_roi}
use v.Roi.Status.{compute-inverse, compute-status_iff, IsComparable, is_text_iff}

module _ {D : Type 0} ⦃d : DecimalOps D⦄ where
  -- Two inputs with the same value, unit, currency, period and time unit.
  pub record SameValue (a b : ResolvedInput D) : Type 0 where
    pub value : a.numeric_value ≡ b.numeric_value
    pub unit : a.unit ≡ b.unit
    pub currency : a.currency_code ≡ b.currency_code
    pub period : a.period ≡ b.period
    pub time_unit : a.time_unit ≡ b.time_unit

  pub record SameValues (x y : Six D) : Type 0 where
    pub baseline : SameValue x.baseline y.baseline
    pub post : SameValue x.post y.post
    pub rate : SameValue x.rate y.rate
    pub periods_per_year : SameValue x.periods_per_year y.periods_per_year
    pub recurring : SameValue x.recurring y.recurring
    pub one_time : SameValue x.one_time y.one_time

  abbrev six_parts : Six D → List String
  six_parts x =
      value_part "baseline_hours_per_period" x.baseline
      ∷ value_part "post_automation_hours_per_period" x.post
      ∷ value_part "fully_loaded_rate_per_hour" x.rate
      ∷ value_part "periods_per_year" x.periods_per_year
      ∷ value_part "annual_recurring_cost" x.recurring
      ∷ value_part "one_time_implementation_cost" x.one_time
      ∷ []

  digest_of_six :
      (sha256 : String → String) (inputs : Dict (ResolvedInput D)) (x : Six D)
      → six_of inputs ≡ some x
      → formula_input_digest sha256 inputs
        ≡ some (sha256 (join rec_sep (formula_version ∷ six_parts x)))
  unfolding formula_input_digest six_of
  digest_of_six sha256 inputs x g = ground (arith, g)

  value_part-same :
      (role : String) (a b : ResolvedInput D)
      → SameValue a b
      → value_part role a ≡ value_part role b
  value_part-same role a b s = cc

  six_parts-same : (x y : Six D) → SameValues x y → six_parts x ≡ six_parts y
  six_parts-same x y s = ground (
    arith,
    value_part-same "baseline_hours_per_period" x.baseline y.baseline s.baseline,
    value_part-same "post_automation_hours_per_period" x.post y.post s.post,
    value_part-same "fully_loaded_rate_per_hour" x.rate y.rate s.rate,
    value_part-same "periods_per_year" x.periods_per_year y.periods_per_year s.periods_per_year,
    value_part-same "annual_recurring_cost" x.recurring y.recurring s.recurring,
    value_part-same "one_time_implementation_cost" x.one_time y.one_time s.one_time,
  )

  six-provenance :
      (digest p : String) (x : Six D) (unavailable : List String)
      → (compute_six digest p x unavailable).provenance_fingerprint ≡ p
  unfolding compute_six
  six-provenance digest p x unavailable = ground arith

  -- The inputs with another currency of the money roles.
  abbrev pub with_currency : Option String → Six D → Six D
  with_currency c x = record x {
    rate = record x.rate { currency_code = c };
    recurring = record x.recurring { currency_code = c };
    one_time = record x.one_time { currency_code = c };
  }

  blank-parts :
      (x : Six D)
      → (x.rate.currency_code ≡ none)
        × (x.recurring.currency_code ≡ none)
        × (x.one_time.currency_code ≡ none)
      → six_parts x ≡ six_parts (with_currency (some "") x)
  blank-parts x s = ground (arith, s)

  no_currency-blocked :
      (digest p : String) (x : Six D)
      → (x.rate.currency_code ≡ none)
        × (x.recurring.currency_code ≡ none)
        × (x.one_time.currency_code ≡ none)
      → (compute_six digest p x []).status ≡ "blocked"
  unfolding compute_six
  no_currency-blocked digest p x s = ground (arith, s)

  six-digest :
      (digest p : String) (x : Six D) (unavailable : List String)
      → (compute_six digest p x unavailable).formula_input_digest ≡ digest
  unfolding compute_six
  six-digest digest p x unavailable = ground arith

  six-same :
      (digest p q : String) (x y : Six D) (unavailable : List String)
      → SameValues x y
      → record (compute_six digest p x unavailable) { provenance_fingerprint = q }
        ≡ compute_six digest q y unavailable
  unfolding compute_six
  six-same digest p q x y unavailable s = ground (arith, s)

  -- Inputs with equal values give results that differ in the provenance fingerprint at most; so the
  -- digest of the values is the same, whatever the ids of the inputs, facts and decisions are.
  pub compute-values :
      (sha256 : String → String) (inputs others : Dict (ResolvedInput D))
      (unavailable : List String) (x y : Six D) (r q : RoiComputation D)
      → SameValues x y
      → six_of inputs ≡ some x
      → six_of others ≡ some y
      → compute_automation_roi sha256 inputs unavailable ≡ computed r
      → compute_automation_roi sha256 others unavailable ≡ computed q
      → record r { provenance_fingerprint = q.provenance_fingerprint } ≡ q
  compute-values sha256 inputs others unavailable x y r q s g k h i =
      let (digest, p, e, f) = compute-inverse sha256 inputs unavailable x r h g in
      let (digest', p', e', f') = compute-inverse sha256 others unavailable y q i k in
      let same : digest ≡ digest' = ground (
        arith,
        f,
        f',
        digest_of_six sha256 inputs x g,
        digest_of_six sha256 others y k,
        six_parts-same x y s,
      ) in
      ground (
        arith,
        e,
        e',
        same,
        six-same digest p p' x y unavailable s,
        six-provenance digest' p' y unavailable,
      )

  -- Inputs whose money inputs have no currency, beside the same inputs with an empty text as the
  -- currency, share the digest of their values, but where the hours inputs are in hours and of one
  -- period, the first result is blocked and the second is not.
  pub blank_currency_digest :
      (sha256 : String → String) (inputs others : Dict (ResolvedInput D)) (x y : Six D)
      (r q : RoiComputation D)
      → (x.rate.currency_code ≡ none)
        × (x.recurring.currency_code ≡ none)
        × (x.one_time.currency_code ≡ none)
      → SameValues (with_currency (some "") x) y
      → (x.baseline.time_unit ≡ some "hours")
        × (x.post.time_unit ≡ some "hours")
        × (x.baseline.period ≡ x.post.period)
      → six_of inputs ≡ some x
      → six_of others ≡ some y
      → compute_automation_roi sha256 inputs [] ≡ computed r
      → compute_automation_roi sha256 others [] ≡ computed q
      → (r.formula_input_digest ≡ q.formula_input_digest)
        × (r.status ≡ "blocked")
        × (q.status ≢ "blocked")
  blank_currency_digest sha256 inputs others x y r q s t u g k h i =
      let (digest, p, e, f) = compute-inverse sha256 inputs [] x r h g in
      let (digest', p', e', f') = compute-inverse sha256 others [] y q i k in
      (
        ground (
          arith,
          e,
          e',
          f,
          f',
          digest_of_six sha256 inputs x g,
          digest_of_six sha256 others y k,
          blank-parts x s,
          six_parts-same (with_currency (some "") x) y t,
          six-digest digest p x [],
          six-digest digest' p' y [],
        ),
        ground (arith, e, no_currency-blocked digest p x s),
        (compute-status_iff sha256 others [] y q i k).1 (refl, ground (arith, t, u)),
      )

  -- An input passes the check of compatibility with the database.
  abbrev pub IsCompatible : String → ResolvedInput D → Type 0
  IsCompatible role it =
      input_compatibility_reason role it.numeric_value (some it.unit) it.currency_code it.time_unit
      ≡ none

  compatible-IsComparable :
      (x : Six D)
      → IsCompatible "baseline_hours_per_period" x.baseline
      → IsCompatible "post_automation_hours_per_period" x.post
      → IsCompatible "fully_loaded_rate_per_hour" x.rate
      → (x.recurring.currency_code ≡ x.rate.currency_code)
        × (x.one_time.currency_code ≡ x.rate.currency_code)
        × (x.baseline.period ≡ x.post.period)
      → IsComparable x
  unfolding input_compatibility_reason
  compatible-IsComparable x a b c k = ground (
    arith,
    a,
    b,
    c,
    k,
    is_text_iff x.baseline.time_unit "hours",
    is_text_iff x.post.time_unit "hours",
  )

  -- If the hours inputs and the rate pass the check of their compatibility with the database, a
  -- result is not blocked exactly if no role is unavailable, the money inputs have the same currency
  -- entry, and the hours inputs the same period.
  pub compute-compatible :
      (sha256 : String → String) (inputs : Dict (ResolvedInput D)) (unavailable : List String)
      (x : Six D) (r : RoiComputation D)
      → IsCompatible "baseline_hours_per_period" x.baseline
      → IsCompatible "post_automation_hours_per_period" x.post
      → IsCompatible "fully_loaded_rate_per_hour" x.rate
      → compute_automation_roi sha256 inputs unavailable ≡ computed r
      → six_of inputs ≡ some x
      → (r.status ≢ "blocked") ↔ (
          (unavailable ≡ [])
          × (x.recurring.currency_code ≡ x.rate.currency_code)
          × (x.one_time.currency_code ≡ x.rate.currency_code)
          × (x.baseline.period ≡ x.post.period))
  compute-compatible sha256 inputs unavailable x r a b c h g =
      let rule = compute-status_iff sha256 inputs unavailable x r h g in
      (
        λ k. ground (arith, rule.0 k),
        λ (u, v, w, z). rule.1 (u, compatible-IsComparable x a b c (v, w, z)),
      )
