-- ===== src/Gateway/Breaker.antt =====
-- mas/llm_client.py: the circuit breaker. Its dict of instants of failures is the state.
use v.Prelude.{ℕ, String, Bool, none, some, List, [], ◌∷◌, ◌++◌, length, leb, select}
use v.Prelude.Dict.{Dict, get, put}
use v.Prelude.Float.{FloatOps}

pub record CircuitBreaker (F : Type 0) : Type 0 where
  pub threshold : ℕ
  pub cooldown : F
  pub failures : Dict (List F)

module _ {F : Type 0} ⦃fl : FloatOps F⦄ where
  -- now - t < self.cooldown
  abbrev pub is_recent : CircuitBreaker F → F → F → Bool
  is_recent breaker now t = fl.gtb breaker.cooldown (fl.sub now t)

  abbrev pub failures_of : CircuitBreaker F → String → List F
  unfolding get
  failures_of breaker key = elim (get breaker.failures key) [ none ↦ [] | some ts ↦ ts ]

  unfoldable pub record_failure : CircuitBreaker F → F → String → CircuitBreaker F
  unfolding get put
  record_failure breaker now key =
      let kept = select (is_recent breaker now) (failures_of breaker key ++ now ∷ []) in
      record breaker { failures = put breaker.failures key kept }

  unfoldable pub is_open : CircuitBreaker F → F → String → Bool
  unfolding get
  is_open breaker now key =
      leb breaker.threshold (length (select (is_recent breaker now) (failures_of breaker key)))

  unfoldable pub reset : CircuitBreaker F → String → CircuitBreaker F
  unfolding put
  reset breaker key = record breaker { failures = put breaker.failures key [] }
