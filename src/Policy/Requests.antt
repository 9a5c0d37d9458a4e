-- ===== src/Policy/Requests.antt =====
-- mas/api.py: what the operator's requests change for the gate (mas/policy.py).
use v.Prelude.{
  ℕ, ◌≤◌, String, ◌≡◌, ◌≢◌, refl, Bool, true, false, not, ◌&&◌, Option, none, some, List, [], ◌∷◌,
  arith, any, str_eq, eq_iff, if◌then◌else◌, inl, inr, Bool-cases,
}
use v.Prelude.Dict.{Dict, get, put, keys, get-put}
use v.Prelude.Float.{FloatOps}
use v.Policy.Types.{CapsDict, ConsumedDict, BreakerDict, Reversibility, Approval, ProjectState}
use v.Policy.Budget.{or_default}
use v.Policy.Gate.{stored_open, policy_gate}
use v.Policy.Operator.{
  saved, Response, refused, grant_approval, reset_breakers, set_budget_caps, close_all,
  closed_breaker,
}

module _ {F : Type 0} where
  get-close_all :
      (ks : List String) (b : Dict (BreakerDict F)) (a : String)
      → get (close_all ks b) a
        ≡ (if not (str_eq a "") && any (λ k. str_eq k a) ks then some closed_breaker else get b a)
  unfolding close_all
  get-close_all [] b a = ground arith
  get-close_all (k ∷ ks) b a = ground (
    arith,
    get-close_all ks (if str_eq k "" then b else put b k closed_breaker) a,
    get-put b k a closed_breaker,
    eq_iff k "",
    eq_iff a "",
    eq_iff k a,
  )

  get-keys :
      (b : Dict (BreakerDict F)) (a : String)
      → any (λ k. str_eq k a) (keys b) ≡ false
      → get b a ≡ none
  unfolding get keys
  get-keys [] a h = refl
  get-keys ((k, v) ∷ b) a h = ground (arith, get-keys b a)

  open-close_all :
      (b : Dict (BreakerDict F)) (a : String)
      → a ≢ ""
      → stored_open (get (close_all (keys b) b) a) ≡ false
  unfolding stored_open
  open-close_all b a h = elim (Bool-cases (any (λ k. str_eq k a) (keys b))) [
    | inl known ↦ ground (arith, get-close_all (keys b) b a, eq_iff a "", known)
    | inr fresh ↦ ground (arith, get-close_all (keys b) b a, eq_iff a "", fresh, get-keys b a)
  ]

  -- A reset of every phase's breaker leaves no action with a name stopped by an open breaker.
  pub reset_breakers_lem :
      (now : F) (s t : ProjectState F) (failures : Bool) (by rationale : String) (action : String)
      → reset_breakers now (some s) none failures true by rationale ≡ saved t
      → action ≢ ""
      → stored_open (get t.phase_breakers action) ≡ false
  unfolding reset_breakers
  reset_breakers_lem now s t failures by rationale action e h =
      ground (arith, open-close_all s.phase_breakers action h)

module _ {F : Type 0} ⦃fl : FloatOps F⦄ where
  gate_approved :
      (now : F) (s : ProjectState F) (action : String) (r : Reversibility) (tokens : ℕ) (cost : F)
      {a : Approval}
      → get s.approvals_granted action ≡ some a
      → ((policy_gate now s action r tokens cost).requires_hitl_approval ≡ false)
        × ((policy_gate now s action r tokens cost).breach_category ≢ some "approval")
  unfolding policy_gate
  gate_approved now s action r tokens cost h = ground (
    arith,
    eq_iff "kill_switch" "approval",
    eq_iff "budget" "approval",
    eq_iff "breaker" "approval",
  )

  -- After an approval was granted for an action, the gate no longer denies the action for the lack
  -- of one, whatever its class and the project's risk.
  pub policy_gate-grant :
      (now now' : F) (iso : String) (s t : ProjectState F) (action by rationale : String)
      (r : Reversibility) (tokens : ℕ) (cost : F)
      → grant_approval now iso (some s) action by rationale ≡ saved t
      → ((policy_gate now' t action r tokens cost).requires_hitl_approval ≡ false)
        × ((policy_gate now' t action r tokens cost).breach_category ≢ some "approval")
  unfolding grant_approval
  policy_gate-grant now now' iso s t action by rationale r tokens cost e =
      let given : Approval = record { approved_by = by; rationale = rationale; granted_at = iso } in
      gate_approved now' t action r tokens cost {a = given}
        (ground (arith, eq_iff action action, get-put s.approvals_granted action action given))

  -- New caps that are accepted are not below the tokens that the project has used.
  pub set_budget_caps-tokens :
      (now : F) (s t : ProjectState F) (req : CapsDict F) (details : Dict String)
      (d : ConsumedDict F) (c : CapsDict F) (limit : ℕ)
      → set_budget_caps now (some s) req details ≡ saved t
      → s.budget_consumed ≡ some d
      → t.budget_caps ≡ some c
      → req.max_total_tokens ≡ some limit
      → (c.max_total_tokens ≡ some limit) × (or_default d.total_tokens 0 ≤ limit)
  unfolding set_budget_caps
  set_budget_caps-tokens now s t req details d c limit e f g h = ground arith

  abbrev pub only_calls : ℕ → CapsDict F
  only_calls n = record {
    max_total_tokens = none;
    max_total_cost_usd = none;
    max_wall_clock_seconds = none;
    max_llm_calls = some n;
    max_phase_reentries = none;
    max_consecutive_failures = none;
  }

  abbrev pub calls_cap : Response (ProjectState F) → Option ℕ
  calls_cap (refused e) = none
  calls_cap (saved t) = elim t.budget_caps [ none ↦ none | some c ↦ c.max_llm_calls ]

  -- A request for another cap of calls is accepted at every number, also below the calls that the
  -- project has made.
  pub set_budget_caps-calls :
      (now : F) (s : ProjectState F) (n : ℕ) (details : Dict String) (d : ConsumedDict F)
      (c : CapsDict F)
      → s.budget_caps ≡ some c
      → s.budget_consumed ≡ some d
      → calls_cap (set_budget_caps now (some s) (only_calls n) details) ≡ some n
  unfolding set_budget_caps
  set_budget_caps-calls now s n details d c e f = ground arith
