-- ===== src/Prelude/Decimal.antt =====
-- Python's `decimal.Decimal`, an argument of the definitions that compute with it: the operations
-- that the program uses, and no law.
use Prim.Native.Nat.{ℕ}
use Prim.Native.String.{String}
use mathlib.Core.Bool.{Bool}

pub record DecimalOps (D : Type 0) : Type 0 where
  pub of_ℕ : ℕ → D
  pub sub : D → D → D
  pub mul : D → D → D
  pub div : D → D → D
  -- a < b
  pub ltb : D → D → Bool
  -- a == b
  pub equal : D → D → Bool
  pub normalize : D → D
  pub to_integral_value : D → D
  -- format(d, "f")
  pub format : D → String
