-- ===== src/Gateway/Failures.antt =====
-- mas/llm_client.py: the circuit breaker against the list of all failures of a key.
use v.Prelude.{
  String, Bool, true, false, List, [], ◌∷◌, ◌++◌, ◌≡◌, refl, sym, str_eq, arith, eq_iff, length,
  leb, select, Bool-cases, inl, inr, if◌then◌else◌, subst,
}
use v.Prelude.Dict.{get-put}
use v.Prelude.Float.{FloatOps}
use v.Gateway.Breaker.{CircuitBreaker, is_recent, failures_of, record_failure, is_open, reset}

-- What happens to a breaker, with the reading of the clock.
pub data BreakerCall (F : Type 0) : Type 0 where
  fails : F → String → BreakerCall F
  looks : F → String → BreakerCall F
  resets : String → BreakerCall F

module _ {F : Type 0} ⦃fl : FloatOps F⦄ where
  unfoldable pub run_calls : CircuitBreaker F → List (BreakerCall F) → CircuitBreaker F
  unfolding record_failure reset
  run_calls b [] = b
  run_calls b (fails now key ∷ cs) = run_calls (record_failure b now key) cs
  run_calls b (looks now key ∷ cs) = run_calls b cs
  run_calls b (resets key ∷ cs) = run_calls (reset b key) cs

  -- All failures of a key since its last reset, after those of `seen`.
  unfoldable pub failures_since : String → List F → List (BreakerCall F) → List F
  failures_since key seen [] = seen
  failures_since key seen (fails now k ∷ cs) =
      failures_since key (if str_eq k key then seen ++ now ∷ [] else seen) cs
  failures_since key seen (looks now k ∷ cs) = failures_since key seen cs
  failures_since key seen (resets k ∷ cs) =
      failures_since key (if str_eq k key then [] else seen) cs

  -- A failure that is recent at the later of two readings is so at the earlier one.
  pub record Ages (b : CircuitBreaker F) : Type 0 where
    pub earlier : (t m n : F) → fl.gtb m n ≡ false → is_recent b n t ≡ true → is_recent b m t ≡ true

  -- No failure was recorded at a reading of the clock above `now`.
  unfoldable pub Before : F → List (BreakerCall F) → Type 0
  Before now [] = Unit
  Before now (fails t k ∷ cs) = (fl.gtb t now ≡ false) × Before now cs
  Before now (looks t k ∷ cs) = Before now cs
  Before now (resets k ∷ cs) = Before now cs

  select-append : (p : F → Bool) (xs ys : List F) → select p (xs ++ ys) ≡ select p xs ++ select p ys
  select-append p [] ys = refl
  select-append p (x ∷ xs) ys = ground (arith, select-append p xs ys)

  -- What was forgotten before `now` is not recent then.
  select-select :
      (b : CircuitBreaker F) (m n : F) (ts : List F)
      → Ages b
      → fl.gtb m n ≡ false
      → select (is_recent b n) (select (is_recent b m) ts) ≡ select (is_recent b n) ts
  select-select b m n [] a h = refl
  select-select b m n (t ∷ ts) a h = elim (Bool-cases (is_recent b n t)) [
    | inl e ↦ ground (arith, a.earlier t m n h e, select-select b m n ts a h)
    | inr e ↦ ground (arith, e, select-select b m n ts a h)
  ]

  failures_of-record_failure :
      (b : CircuitBreaker F) (t : F) (k key : String)
      → failures_of (record_failure b t k) key ≡ (
          if str_eq k key
          then select (is_recent b t) (failures_of b key ++ t ∷ [])
          else failures_of b key)
  unfolding record_failure
  failures_of-record_failure b t k key =
      let kept = select (is_recent b t) (failures_of b k ++ t ∷ []) in
      elim (Bool-cases (str_eq k key)) [
        | inl e ↦
            subst
              (λ x. failures_of (record_failure b t x) key ≡ (
                if str_eq x key
                then select (is_recent b t) (failures_of b key ++ t ∷ [])
                else failures_of b key))
              (sym ((eq_iff k key).0 e))
              (ground (
                arith,
                eq_iff key key,
                get-put b.failures key key (select (is_recent b t) (failures_of b key ++ t ∷ [])),
              ))
        | inr e ↦ ground (arith, e, get-put b.failures k key kept)
      ]

  -- Of two breakers with one cooldown, what is kept for a key.
  recent-run :
      (b : CircuitBreaker F) (cs : List (BreakerCall F)) (now : F) (key : String) (seen : List F)
      → Ages b
      → Before now cs
      → select (is_recent b now) (failures_of b key) ≡ select (is_recent b now) seen
      → select (is_recent b now) (failures_of (run_calls b cs) key)
        ≡ select (is_recent b now) (failures_since key seen cs)
  unfolding run_calls failures_since Before
  recent-run b [] now key seen a h e = e
  recent-run b (looks t k ∷ cs) now key seen a h e = recent-run b cs now key seen a h e
  recent-run b (resets k ∷ cs) now key seen a h e =
      recent-run (reset b k) cs now key (if str_eq k key then [] else seen)
        (record { earlier = a.earlier }) h cleared
    where
      cleared :
          select (is_recent b now) (failures_of (reset b k) key)
          ≡ select (is_recent b now) (if str_eq k key then [] else seen)
      cleared = ground (arith, get-put b.failures k key [], e)
  recent-run b (fails t k ∷ cs) now key seen a h e =
      recent-run (record_failure b t k) cs now key (if str_eq k key then seen ++ t ∷ [] else seen)
        (record { earlier = a.earlier }) h.1 noted
    where
      noted :
          select (is_recent b now) (failures_of (record_failure b t k) key)
          ≡ select (is_recent b now) (if str_eq k key then seen ++ t ∷ [] else seen)
      noted = elim (Bool-cases (str_eq k key)) [
        | inl same ↦ ground (
          arith,
          same,
          e,
          failures_of-record_failure b t k key,
          select-select b t now (failures_of b key ++ t ∷ []) a h.0,
          select-append (is_recent b now) (failures_of b key) (t ∷ []),
          select-append (is_recent b now) seen (t ∷ []),
        )
        | inr other ↦ ground (arith, other, e, failures_of-record_failure b t k key)
      ]

  settings-run :
      (b : CircuitBreaker F) (cs : List (BreakerCall F))
      → ((run_calls b cs).threshold ≡ b.threshold) × ((run_calls b cs).cooldown ≡ b.cooldown)
  unfolding run_calls record_failure reset
  settings-run b [] = (refl, refl)
  settings-run b (fails t k ∷ cs) = settings-run (record_failure b t k) cs
  settings-run b (looks t k ∷ cs) = settings-run b cs
  settings-run b (resets k ∷ cs) = settings-run (reset b k) cs

  -- After any sequence of calls with failures at readings of the clock that are not above `now`, the breaker of
  -- a key is open at `now` exactly if of all its failures since its last reset at least `threshold`
  -- are recent: what `record_failure` forgets never counts again. A failure that is recent at a
  -- reading must be so at the earlier ones.
  pub is_open-run :
      (b : CircuitBreaker F) (cs : List (BreakerCall F)) (now : F) (key : String)
      → Ages b
      → Before now cs
      → is_open (run_calls b cs) now key
        ≡ leb b.threshold
            (length (select (is_recent b now) (failures_since key (failures_of b key) cs)))
  unfolding is_open
  is_open-run b cs now key a h =
      let kept = recent-run b cs now key (failures_of b key) a h refl in
      let same = settings-run b cs in rw (same.0, same.1, kept) refl
