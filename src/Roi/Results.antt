-- ===== src/Roi/Results.antt =====
-- mas/knowledge/automation_roi/calculator.py: what a result holds, and which inputs share a digest.
use v.Prelude.{String, ◌≡◌, ◌⊎◌, true, false, none, some, List, arith, sym, subst}
use v.Prelude.Decimal.{DecimalOps}
use v.Prelude.Dict.{Dict}
use v.Roi.Inputs.{ResolvedInput}
use v.Roi.Calculator.{computed, RoiComputation, Six, six_of, compute_six, compute_automation_roi}
use v.Roi.Status.{compute-inverse}

module _ {D : Type 0} ⦃d : DecimalOps D⦄ where
  -- A blocked result has no currency and no amount.
  pub record IsBlocked (r : RoiComputation D) : Type 0 where
    pub status : r.status ≡ "blocked"
    pub percent_status : r.roi_percent_status ≡ "blocked"
    pub currency : r.currency_code ≡ none
    pub labor : r.annual_labor_savings ≡ none
    pub net : r.annual_net_benefit ≡ none
    pub first_year : r.first_year_net_benefit ≡ none
    pub percent : r.first_year_roi_percent ≡ none

  -- The three amounts, each from the one before it.
  pub record HasAmounts (x : Six D) (r : RoiComputation D) : Type 0 where
    pub currency : r.currency_code ≡ x.rate.currency_code
    pub labor :
        r.annual_labor_savings
        ≡ some (
            d.mul
              (d.mul (d.sub x.baseline.numeric_value x.post.numeric_value) x.rate.numeric_value)
              x.periods_per_year.numeric_value)
    pub net :
        (s : D)
        → r.annual_labor_savings ≡ some s
        → r.annual_net_benefit ≡ some (d.sub s x.recurring.numeric_value)
    pub first_year :
        (s : D)
        → r.annual_net_benefit ≡ some s
        → r.first_year_net_benefit ≡ some (d.sub s x.one_time.numeric_value)

  pub record IsNotApplicable (x : Six D) (r : RoiComputation D) : Type 0 where
    pub status : r.status ≡ "not_applicable"
    pub percent_status : r.roi_percent_status ≡ "not_applicable"
    pub no_cost : d.equal x.one_time.numeric_value (d.of_ℕ 0) ≡ true
    pub amounts : HasAmounts x r
    pub percent : r.first_year_roi_percent ≡ none

  pub record IsValid (x : Six D) (r : RoiComputation D) : Type 0 where
    pub status : r.status ≡ "valid"
    pub percent_status : r.roi_percent_status ≡ "computed"
    pub cost : d.equal x.one_time.numeric_value (d.of_ℕ 0) ≡ false
    pub amounts : HasAmounts x r
    pub percent :
        (s : D)
        → r.first_year_net_benefit ≡ some s
        → r.first_year_roi_percent ≡ some (d.mul (d.div s x.one_time.numeric_value) (d.of_ℕ 100))

  six-outputs :
      (digest provenance : String) (x : Six D) (unavailable : List String)
      → let r = compute_six digest provenance x unavailable in
        IsBlocked r ⊎ (IsNotApplicable x r ⊎ IsValid x r)
  unfolding compute_six
  six-outputs digest provenance x unavailable = ground arith

  -- A result is blocked and holds no amount, or it holds the labor savings, the annual and the
  -- first year's net benefit, each computed from the one before; then the percentage is absent if
  -- the implementation cost is zero, and else it is 100 times the first year's net benefit over
  -- that cost.
  pub compute-outputs :
      (sha256 : String → String) (inputs : Dict (ResolvedInput D)) (unavailable : List String)
      (x : Six D) (r : RoiComputation D)
      → compute_automation_roi sha256 inputs unavailable ≡ computed r
      → six_of inputs ≡ some x
      → IsBlocked r ⊎ (IsNotApplicable x r ⊎ IsValid x r)
  compute-outputs sha256 inputs unavailable x r h g =
      let (digest, provenance, e, f) = compute-inverse sha256 inputs unavailable x r h g in
      subst (λ y. IsBlocked y ⊎ (IsNotApplicable x y ⊎ IsValid x y)) (sym e)
        (six-outputs digest provenance x unavailable)
