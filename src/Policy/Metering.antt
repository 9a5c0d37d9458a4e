-- ===== src/Policy/Metering.antt =====
-- mas/policy.py and `run_phase_node` of mas/orchestrator.py: what the meter of a project's calls
-- shows after any number of phases.
use v.Prelude.{
  ℕ, ◌+◌, ◌≤◌, ◌<◌, String, ◌≡◌, refl, Bool, true, false, Option, none, some, List, [], ◌∷◌, arith,
  length, Option-cases, ◌∙◌, inl, inr,
}
use v.Prelude.Float.{FloatOps}
use v.Policy.Types.{CapsDict, ConsumedDict, ProjectState}
use v.Policy.Budget.{
  or_default, record_consumption, consumed_from_dict, caps_from_dict, record_in_dict,
  record_consumption_to_state, start_wall_clock,
}
use v.Policy.Gate.{policy_gate, log_policy_event}
use v.Policy.PhaseRun.{Outcome, record_all, enter_phase, run_phase, phase_reversibility}
use v.Policy.Admission.{WithinBudget, policy_gate_iff}

module _ {F : Type 0} ⦃fl : FloatOps F⦄ where
  -- Metering a call in the dict of the state and reading the dict gives what metering it in the
  -- dataclass gives, also where keys are missing.
  pub consumed_from_dict-record :
      (d : ConsumedDict F) (tokens : ℕ) (cost : F) (success : Bool)
      → consumed_from_dict (record_in_dict d tokens cost success)
        ≡ record_consumption (consumed_from_dict d) tokens cost success
  unfolding consumed_from_dict record_in_dict record_consumption
  consumed_from_dict-record d tokens cost success = ground arith

  abbrev calls_of : Option (ConsumedDict F) → ℕ
  calls_of none = 0
  calls_of (some d) = or_default d.llm_call_count 0

  -- The metered calls of a project.
  abbrev pub calls : ProjectState F → ℕ
  calls s = calls_of s.budget_consumed

  calls-record :
      (s : ProjectState F) (tokens : ℕ) (cost : F) (success : Bool)
      → (calls (record_consumption_to_state s tokens cost success) ≤ calls s + 1)
        × ((record_consumption_to_state s tokens cost success).budget_caps ≡ s.budget_caps)
  unfolding record_consumption_to_state
  calls-record s tokens cost success = ground arith

  calls-record_all :
      (s : ProjectState F) (os : List (Outcome F))
      → (calls (record_all s os) ≤ calls s + length os)
        × ((record_all s os).budget_caps ≡ s.budget_caps)
  unfolding record_all
  calls-record_all s [] = (omega arith, refl)
  calls-record_all s (o ∷ os) = ground (
    arith,
    calls-record s o.tokens o.cost_usd o.success,
    calls-record_all (record_consumption_to_state s o.tokens o.cost_usd o.success) os,
  )

  abbrev pub is_metered : Option (ConsumedDict F) → Bool
  is_metered none = false
  is_metered (some d) = true

  -- The project has the caps `c` and a meter, and its metered calls pass the cap by at most `k`.
  pub record InCap (c : CapsDict F) (k : ℕ) (s : ProjectState F) : Type 0 where
    pub capped : s.budget_caps ≡ some c
    pub metered : is_metered s.budget_consumed ≡ true
    pub few : calls s ≤ (caps_from_dict c).max_llm_calls + k

  metered-record :
      (s : ProjectState F) (o : Outcome F)
      → is_metered (record_consumption_to_state s o.tokens o.cost_usd o.success).budget_consumed
        ≡ is_metered s.budget_consumed
  unfolding record_consumption_to_state
  metered-record s o = ground arith

  metered-record_all :
      (s : ProjectState F) (os : List (Outcome F))
      → is_metered (record_all s os).budget_consumed ≡ is_metered s.budget_consumed
  unfolding record_all
  metered-record_all s [] = refl
  metered-record_all s (o ∷ os) =
      metered-record_all (record_consumption_to_state s o.tokens o.cost_usd o.success) os
      ∙ metered-record s o

  -- Entering keeps the caps and the meter, and whoever is let in has a call left.
  enter-frame :
      (now : F) (s : ProjectState F) (phase : String)
      → ((enter_phase now s phase).0.budget_caps ≡ s.budget_caps)
        × (is_metered (enter_phase now s phase).0.budget_consumed ≡ is_metered s.budget_consumed)
        × (calls (enter_phase now s phase).0 ≡ calls s)
  unfolding enter_phase log_policy_event
  enter-frame now s phase = ground arith

  gate_calls :
      (now : F) (s : ProjectState F) (phase : String) (c : CapsDict F)
      → s.budget_caps ≡ some c
      → is_metered s.budget_consumed ≡ true
      → (policy_gate now s phase (phase_reversibility phase) 0 (fl.of_ℕ 0)).allowed ≡ true
      → calls s < (caps_from_dict c).max_llm_calls
  unfolding consumed_from_dict
  gate_calls now s phase c e m h = elim (Option-cases s.budget_consumed) [
    | inl absent ↦ ground (arith, absent)
    | inr (d, present) ↦
        let room : WithinBudget now (consumed_from_dict d) (caps_from_dict c) 0 (fl.of_ℕ 0) =
          ((policy_gate_iff now s phase (phase_reversibility phase) 0 (fl.of_ℕ 0)).0 h).in_budget d
            c present e in
        ground (arith, room.calls_left, present)
  ]

  enter_calls :
      (now : F) (s : ProjectState F) (phase : String) (c : CapsDict F)
      → s.budget_caps ≡ some c
      → is_metered s.budget_consumed ≡ true
      → (enter_phase now s phase).1.allowed ≡ true
      → calls s < (caps_from_dict c).max_llm_calls
  unfolding enter_phase
  enter_calls now s phase c e m h = ground (arith, gate_calls now (start_wall_clock now s) phase c)

  pub run-InCap :
      (now : F) (s : ProjectState F) (phase : String) (first : Outcome F)
      (retries : List (Outcome F)) (c : CapsDict F) (k : ℕ)
      → length retries ≤ k
      → InCap c k s
      → InCap c k (run_phase now s phase first retries)
  unfolding run_phase
  run-InCap now s phase first retries c k l h =
      let e : ProjectState F = (enter_phase now s phase).0 in
      ground (
        arith,
        enter-frame now s phase,
        enter_calls now s phase c,
        calls-record_all e (first ∷ retries),
        metered-record_all e (first ∷ retries),
      )
