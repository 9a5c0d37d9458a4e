-- ===== src/Roi/Status.antt =====
-- mas/knowledge/automation_roi/calculator.py: which status a result has, and what it then holds.
use v.Prelude.{String, ◌≡◌, ◌≢◌, ◌↔◌, true, Option, none, some, List, [], arith, eq_iff, sym, subst}
use v.Prelude.Decimal.{DecimalOps}
use v.Prelude.Dict.{Dict}
use v.Roi.Inputs.{ResolvedInput, is_text, formula_input_digest}
use v.Roi.Calculator.{
  computed, RoiComputation, Six, six_of, option_eq, compute_six, compute_automation_roi,
}
use v.Roi.Shape.{compute-total, compute_agrees}

pub option_eq_iff : (a b : Option String) → (option_eq a b ≡ true) ↔ (a ≡ b)
option_eq_iff none none = ground arith
option_eq_iff none (some t) = ground arith
option_eq_iff (some s) none = ground arith
option_eq_iff (some s) (some t) = ground (arith, eq_iff s t)

pub is_text_iff : (a : Option String) (t : String) → (is_text a t ≡ true) ↔ (a ≡ some t)
is_text_iff none t = ground arith
is_text_iff (some s) t = ground (arith, eq_iff s t)

module _ {D : Type 0} ⦃d : DecimalOps D⦄ where
  -- The money inputs share a currency, and the hours inputs are in hours and share a period.
  pub record IsComparable (x : Six D) : Type 0 where
    pub has_currency : x.rate.currency_code ≢ none
    pub recurring_currency : x.recurring.currency_code ≡ x.rate.currency_code
    pub one_time_currency : x.one_time.currency_code ≡ x.rate.currency_code
    pub baseline_hours : x.baseline.time_unit ≡ some "hours"
    pub post_hours : x.post.time_unit ≡ some "hours"
    pub same_period : x.baseline.period ≡ x.post.period

  module _ (digest provenance : String) (x : Six D) where
    pub six-status :
        (unavailable : List String)
        → ((compute_six digest provenance x unavailable).status ≢ "blocked")
          ↔ ((unavailable ≡ []) × IsComparable x)
    unfolding compute_six
    six-status unavailable = (
      λ h. ground (
        arith,
        h,
        option_eq_iff none x.rate.currency_code,
        option_eq_iff x.rate.currency_code x.recurring.currency_code,
        option_eq_iff x.rate.currency_code x.one_time.currency_code,
        option_eq_iff x.recurring.currency_code x.one_time.currency_code,
        option_eq_iff x.baseline.period x.post.period,
        is_text_iff x.baseline.time_unit "hours",
        is_text_iff x.post.time_unit "hours",
      ),
      λ h. ground (
        arith,
        h,
        eq_iff "not_applicable" "blocked",
        eq_iff "valid" "blocked",
        option_eq_iff none x.rate.currency_code,
        option_eq_iff x.rate.currency_code x.recurring.currency_code,
        option_eq_iff x.rate.currency_code x.one_time.currency_code,
        option_eq_iff x.recurring.currency_code x.one_time.currency_code,
        option_eq_iff x.baseline.period x.post.period,
        is_text_iff x.baseline.time_unit "hours",
        is_text_iff x.post.time_unit "hours",
      ),
    )

  -- A result is that of the six inputs, with the digest of the inputs.
  pub compute-inverse :
      (sha256 : String → String) (inputs : Dict (ResolvedInput D)) (unavailable : List String)
      (x : Six D) (r : RoiComputation D)
      → compute_automation_roi sha256 inputs unavailable ≡ computed r
      → six_of inputs ≡ some x
      → (digest provenance : String) × (r ≡ compute_six digest provenance x unavailable)
        × (formula_input_digest sha256 inputs ≡ some digest)
  compute-inverse sha256 inputs unavailable x r h g =
      let (a, b) = compute_agrees sha256 inputs unavailable r h in
      let (digest, provenance, y, k, e, c) = compute-total sha256 inputs unavailable a b in
      (digest, provenance, ground (arith, h, g, k, c), e)

  -- A result is not blocked exactly if no role is unavailable, the three money inputs have one
  -- currency, and the two hours inputs are in hours and of one period.
  pub compute-status_iff :
      (sha256 : String → String) (inputs : Dict (ResolvedInput D)) (unavailable : List String)
      (x : Six D) (r : RoiComputation D)
      → compute_automation_roi sha256 inputs unavailable ≡ computed r
      → six_of inputs ≡ some x
      → (r.status ≢ "blocked") ↔ ((unavailable ≡ []) × IsComparable x)
  compute-status_iff sha256 inputs unavailable x r h g =
      let (digest, provenance, e, f) = compute-inverse sha256 inputs unavailable x r h g in
      subst (λ y. (y.status ≢ "blocked") ↔ ((unavailable ≡ []) × IsComparable x)) (sym e)
        (six-status digest provenance x unavailable)
