-- ===== src/Prelude/Float.antt =====
-- Python's `float`, an argument of the definitions that compute with it: the operations that the
-- program uses, and no law.
use Prim.Native.Nat.{ℕ}
use mathlib.Core.Bool.{Bool}

pub record FloatOps (F : Type 0) : Type 0 where
  pub of_ℕ : ℕ → F
  pub add : F → F → F
  pub sub : F → F → F
  pub div : F → F → F
  -- a > b
  pub gtb : F → F → Bool
