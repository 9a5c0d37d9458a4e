-- ===== src/Policy/Steps.antt =====
-- The steps of a project's policy state: a run of a phase (mas/orchestrator.py) and the operator's
-- requests (mas/api.py).
use v.Prelude.{ℕ, ◌≤◌, String, ◌≡◌, Bool, Option, some, List, length}
use v.Prelude.Dict.{Dict}
use v.Prelude.Float.{FloatOps}
use v.Policy.Types.{CapsDict, ProjectState}
use v.Policy.Operator.{
  saved, kill_project, set_risk_classification, grant_approval, reset_breakers, set_budget_caps,
}
use v.Policy.PhaseRun.{Outcome, run_phase}

module _ {F : Type 0} where
  -- A request that leaves the caps alone and is answered with success.
  pub data Request (s t : ProjectState F) : Type 0 where
    kill :
        (now : F) (reason by : String) → kill_project now (some s) reason by ≡ saved t → Request s t
    set_risk :
        (now : F) (c rationale by : String)
        → set_risk_classification now (some s) c rationale by ≡ saved t
        → Request s t
    approve :
        (now : F) (iso action by rationale : String)
        → grant_approval now iso (some s) action by rationale ≡ saved t
        → Request s t
    reset :
        (now : F) (phase : Option String) (failures breakers : Bool) (by rationale : String)
        → reset_breakers now (some s) phase failures breakers by rationale ≡ saved t
        → Request s t

module _ {F : Type 0} ⦃fl : FloatOps F⦄ where
  -- A phase is run with at most `k` retries, or a request is served.
  pub data Step (k : ℕ) (s t : ProjectState F) : Type 0 where
    run :
        (now : F) (phase : String) (first : Outcome F) (retries : List (Outcome F))
        → length retries ≤ k
        → run_phase now s phase first retries ≡ t
        → Step k s t
    request : Request s t → Step k s t
    set_caps :
        (now : F) (req : CapsDict F) (details : Dict String)
        → set_budget_caps now (some s) req details ≡ saved t
        → Step k s t

  pub data Reach (k : ℕ) (s : ProjectState F) : ProjectState F → Type 0 where
    here : Reach k s s
    next : {t u : ProjectState F} → Reach k s t → Step k t u → Reach k s u

  -- The same with the caps left alone.
  pub data Steady (k : ℕ) (s : ProjectState F) : ProjectState F → Type 0 where
    here : Steady k s s
    ran :
        {t : ProjectState F} (now : F) (phase : String) (first : Outcome F)
        (retries : List (Outcome F))
        → Steady k s t
        → length retries ≤ k
        → Steady k s (run_phase now t phase first retries)
    served : {t u : ProjectState F} → Steady k s t → Request t u → Steady k s u
