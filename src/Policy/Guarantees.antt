-- ===== src/Policy/Guarantees.antt =====
-- What holds of a project after any number of phases and operator requests (mas/policy.py,
-- mas/orchestrator.py, mas/api.py).
use v.Prelude.{ℕ, String, ◌≡◌, refl, true, false, some, List, arith}
use v.Prelude.Dict.{Dict}
use v.Prelude.Float.{FloatOps}
use v.Policy.Types.{CapsDict, Reversibility, ProjectState}
use v.Policy.Budget.{start_wall_clock}
use v.Policy.Gate.{policy_gate, log_policy_event}
use v.Policy.Operator.{
  saved, kill_project, set_risk_classification, grant_approval, reset_breakers, set_budget_caps,
}
use v.Policy.PhaseRun.{Outcome, enter_phase, run_phase, phase_reversibility}
use v.Policy.Steps.{Request, Step, Reach, Steady}
use v.Policy.Metering.{is_metered, calls, InCap, run-InCap}

module _ {F : Type 0} ⦃fl : FloatOps F⦄ where
  Request-frame :
      {s t : ProjectState F}
      → Request s t
      → (t.budget_caps ≡ s.budget_caps)
        × (is_metered s.budget_consumed ≡ true → is_metered t.budget_consumed ≡ true)
        × (calls t ≡ calls s)
  unfolding kill_project set_risk_classification grant_approval reset_breakers
  Request-frame (Request.kill now reason by e) = ground arith
  Request-frame (Request.set_risk now c rationale by e) = ground arith
  Request-frame (Request.approve now iso action by rationale e) = ground arith
  Request-frame (Request.reset now phase failures breakers by rationale e) = ground arith

  -- From a metered project within its cap of calls, whatever phases run, with at most `k` retries
  -- each, and whatever the operator requests short of new caps, the metered calls pass the cap by
  -- at most `k`.
  pub Steady-InCap :
      (k : ℕ) (c : CapsDict F) {s t : ProjectState F} → InCap c k s → Steady k s t → InCap c k t
  Steady-InCap k c h Steady.here = h
  Steady-InCap k c h (Steady.ran {t} now phase first retries r l) =
      run-InCap now t phase first retries c k l (Steady-InCap k c h r)
  Steady-InCap k c h (Steady.served r q) = ground (arith, Steady-InCap k c h r, Request-frame q)

  -- What a killed project keeps: the switch, and all that its calls consumed.
  pub record SameWork (s t : ProjectState F) : Type 0 where
    pub still_killed : t.kill_switch_active ≡ true
    pub same_calls : calls t ≡ calls s
    pub same_phase : t.current_phase ≡ s.current_phase

  Request-SameWork :
      {s t : ProjectState F} → s.kill_switch_active ≡ true → Request s t → SameWork s t
  unfolding kill_project set_risk_classification grant_approval reset_breakers
  Request-SameWork h (Request.kill now reason by e) = ground arith
  Request-SameWork h (Request.set_risk now c rationale by e) = ground arith
  Request-SameWork h (Request.approve now iso action by rationale e) = ground arith
  Request-SameWork h (Request.reset now phase failures breakers by rationale e) = ground arith

  gate_killed :
      (now : F) (s : ProjectState F) (action : String) (r : Reversibility) (tokens : ℕ) (cost : F)
      → s.kill_switch_active ≡ true
      → (policy_gate now s action r tokens cost).allowed ≡ false
  unfolding policy_gate
  gate_killed now s action r tokens cost h = rw h

  enter_killed :
      (now : F) (s : ProjectState F) (phase : String)
      → s.kill_switch_active ≡ true
      → ((enter_phase now s phase).1.allowed ≡ false) × SameWork s (enter_phase now s phase).0
  unfolding enter_phase log_policy_event
  enter_killed now s phase h = ground (
    arith,
    gate_killed now (start_wall_clock now s) phase (phase_reversibility phase) 0 (fl.of_ℕ 0),
  )

  run-SameWork :
      (now : F) (s : ProjectState F) (phase : String) (first : Outcome F)
      (retries : List (Outcome F))
      → s.kill_switch_active ≡ true
      → SameWork s (run_phase now s phase first retries)
  unfolding run_phase
  run-SameWork now s phase first retries h = ground (arith, enter_killed now s phase h)

  caps-SameWork :
      (now : F) {s t : ProjectState F} (req : CapsDict F) (details : Dict String)
      → s.kill_switch_active ≡ true
      → set_budget_caps now (some s) req details ≡ saved t
      → SameWork s t
  unfolding set_budget_caps
  caps-SameWork now req details h e = ground arith

  -- Once the kill switch is on, no phase, no retry and no operator request turns it off, meters a
  -- call or enters another phase.
  pub killed_halts :
      (k : ℕ) {s t : ProjectState F} → s.kill_switch_active ≡ true → Reach k s t → SameWork s t
  killed_halts k h Reach.here = record { still_killed = h; same_calls = refl; same_phase = refl }
  killed_halts k h (Reach.next {t} {u} r (Step.run now phase first retries l e)) =
      ground (arith, killed_halts k h r, run-SameWork now t phase first retries)
  killed_halts k h (Reach.next r (Step.request q)) =
      let w : SameWork _ _ = killed_halts k h r in
      ground (arith, w, Request-SameWork w.still_killed q)
  killed_halts k h (Reach.next r (Step.set_caps now req details e)) =
      let w : SameWork _ _ = killed_halts k h r in
      ground (arith, w, caps-SameWork now req details w.still_killed e)
