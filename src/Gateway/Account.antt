-- ===== src/Gateway/Account.antt =====
-- mas/runtime/provider_gateway.py: what a response of `_call_with_fallbacks` owes to the executions
-- of its call, whichever way the call ends.
use v.Prelude.{
  suc, String, Bool, true, false, some, List, [], ◌∷◌, ◌++◌, ◌≡◌, refl, not, str_eq, arith, All,
  count_if, length, if◌then◌else◌,
}
use v.Prelude.Float.{FloatOps}
use v.Gateway.Types.{
  TextOps, ModelConfig, Attempt, ProviderSelection, provider_value, GatewayResponse, World,
}
use v.Gateway.Errors.{is_set, is_unusable, attempt_metadata, safe_error_message}
use v.Gateway.Messages.{safe_error_message-set}
use v.Gateway.Breaker.{CircuitBreaker}
use v.Gateway.Attempt.{UsageLedger, empty_ledger, record_usage, run_before_attempt}
use v.Gateway.Progress.{
  Candidate, Progress, Step, returned, again, next_candidate, start, note_failure, skip,
}
use v.Gateway.Calls.{executed, billed, failed}

-- The attempt reached a provider.
abbrev pub was_executed : Attempt → Bool
was_executed a = not (str_eq a.status "skipped")

pub count-snoc :
    (xs : List Attempt) (a : Attempt)
    → count_if was_executed (xs ++ a ∷ [])
      ≡ (if was_executed a then suc (count_if was_executed xs) else count_if was_executed xs)
count-snoc [] a = refl
count-snoc (b ∷ xs) a = ground (arith, count-snoc xs a)

module _ {F : Type 0} ⦃fl : FloatOps F⦄ (ops : TextOps) (w : World F) (first : Candidate F) where
  -- Of the configs that were executed, the newest first: the usage of their executions.
  unfoldable pub spend : List (ModelConfig F) → UsageLedger F
  spend [] = empty_ledger
  spend (config ∷ ran) = record_usage (spend ran) (executed ops w first (length ran) config)

  -- The same: every execution came back with an error.
  abbrev pub AllFailed : List (ModelConfig F) → Type 0
  AllFailed [] = Unit
  AllFailed (config ∷ ran) =
      (is_set (executed ops w first (length ran) config).error ≡ true) × AllFailed ran

  -- How a call ends: its last execution answered it, the hook refused, or nothing answered.
  pub data Ending (ran : List (ModelConfig F)) (r : GatewayResponse F) : Type 0 where
    answered :
        (config : ModelConfig F) (older : List (ModelConfig F))
        → ran ≡ config ∷ older
        → AllFailed older
        → is_set (executed ops w first (length older) config).error ≡ false
        → r.text ≡ (executed ops w first (length older) config).text
        → is_set r.error ≡ false
        → Ending ran r
    stopped :
        (config : ModelConfig F) (x : GatewayResponse F)
        → AllFailed ran
        → run_before_attempt config (w.hook (length ran) config) ≡ some x
        → r.error ≡ x.error
        → r.error_type ≡ x.error_type
        → Ending ran r
    unanswered : AllFailed ran → is_set r.error ≡ true → Ending ran r

  -- A response beside the executions of its call, all of configs that meet `Q`.
  pub record Account (Q : ModelConfig F → Type 0) (r : GatewayResponse F) : Type 0 where
    pub ran : List (ModelConfig F)
    pub within : All Q ran
    pub counted : r.attempt_count ≡ length ran
    pub listed : count_if was_executed r.attempts ≡ length ran
    pub input_tokens : r.input_tokens ≡ (spend ran).input_tokens
    pub output_tokens : r.output_tokens ≡ (spend ran).output_tokens
    pub cache_read_tokens : r.cache_read_tokens ≡ (spend ran).cache_read_tokens
    pub cost_usd : r.cost_usd ≡ (spend ran).cost_usd
    pub ending : Ending ran r

  -- The state of a call that goes on.
  pub record Ran (Q : ModelConfig F → Type 0) (p : Progress F) : Type 0 where
    pub ran : List (ModelConfig F)
    pub within : All Q ran
    pub counted : p.attempt_count ≡ length ran
    pub listed : count_if was_executed p.attempts ≡ length ran
    pub usage : p.usage ≡ spend ran
    pub failures : AllFailed ran
    pub message : is_set p.last_error ≡ true
    pub unusable : is_unusable p.attempted_error_type ≡ true → is_set p.attempted_error ≡ true

  abbrev pub Sound : (ModelConfig F → Type 0) → Step F → Type 0
  Sound Q (returned p r) = Account Q r
  Sound Q (again p) = Ran Q p
  Sound Q (next_candidate p) = Ran Q p

  pub start-Ran : (Q : ModelConfig F → Type 0) (b : CircuitBreaker F) → Ran Q (start b)
  unfolding spend
  start-Ran Q b = record {
    ran = [];
    within = tt;
    counted = refl;
    listed = refl;
    usage = refl;
    failures = tt;
    message = refl;
    unusable = λ h. ground arith;
  }

  note-counted :
      (p : Progress F) (c : Candidate F) (status category skip_reason error : String)
      → ((note_failure p c status category skip_reason error).attempt_count ≡ p.attempt_count)
        × ((note_failure p c status category skip_reason error).usage ≡ p.usage)
        × ((note_failure p c status category skip_reason error).attempted_error ≡ p.attempted_error)
        × ((note_failure p c status category skip_reason error).attempted_error_type
            ≡ p.attempted_error_type)
        × ((note_failure p c status category skip_reason error).last_error ≡ error)
        × (count_if was_executed (note_failure p c status category skip_reason error).attempts ≡ (
            if str_eq status "skipped"
            then count_if was_executed p.attempts
            else suc (count_if was_executed p.attempts)))
  unfolding note_failure
  note-counted p (config, selection) status category skip_reason error =
      let listed =
        count-snoc p.attempts (attempt_metadata config selection status category skip_reason) in
      ground (arith, listed)

  pub skip-Ran :
      (Q : ModelConfig F → Type 0) (p : Progress F) (c : Candidate F) (skip_reason : String)
      → Ran Q p
      → Ran Q (skip ops p c skip_reason)
  unfolding skip
  skip-Ran Q p (config, selection) skip_reason h =
      let message =
        safe_error_message-set ops "provider_unavailable" (provider_value config.provider)
          config.model "" in
      let noted =
        note-counted p (config, selection) "skipped" "provider_unavailable" skip_reason
          (safe_error_message ops "provider_unavailable" (provider_value config.provider)
            config.model "") in
      record {
        ran = h.ran;
        within = h.within;
        counted = ground (arith, noted, h.counted);
        listed = ground (arith, noted, h.listed);
        usage = ground (arith, noted, h.usage);
        failures = h.failures;
        message = ground (arith, noted, message);
        unusable = λ e. ground (arith, noted, h.unusable, e);
      }

  -- The state once an execution has failed.
  pub failed-Ran :
      (Q : ModelConfig F → Type 0) (p : Progress F) (config : ModelConfig F)
      (selection : ProviderSelection) (r : GatewayResponse F)
      → (h : Ran Q p) → Q config
      → r ≡ executed ops w first p.attempt_count config
      → is_set r.error ≡ true
      → Ran Q (failed ops w first (billed ops w first p r) (config, selection) r)
  unfolding failed billed spend
  failed-Ran Q p config selection r h q e f =
      let b : Progress F = billed ops w first p r in
      let noted = note-counted b (config, selection) "failed" r.error_type "" r.error in
      record {
        ran = config ∷ h.ran;
        within = (q, h.within);
        counted = ground (arith, noted, h.counted);
        listed = ground (arith, noted, h.listed);
        usage = ground (arith, noted, h.usage, h.counted, e);
        failures = (ground (arith, h.counted, e, f), h.failures);
        message = ground (arith, noted, f);
        unusable = λ u. ground (arith, noted, h.unusable, f, u);
      }
