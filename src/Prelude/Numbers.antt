-- ===== src/Prelude/Numbers.antt =====
-- Python integers that a caller passes, where the code looks at the sign.
use Prim.Native.Nat.{ℕ, zero, suc}
use mathlib.Core.Bool.{Bool, false}
use mathlib.Core.Option.{Option, none, some}
use qarunner.Prelude.Tests.{◌==◌}

-- `negsuc n` is -(n + 1).
pub data ℤ : Type 0 where
  pos : ℕ → ℤ
  negsuc : ℕ → ℤ

-- `z == n` for a stored natural number.
abbrev pub equals : ℤ → ℕ → Bool
equals (pos m) n = m == n
equals (negsuc m) n = false

-- `z > 0` gives the number.
abbrev pub positive? : ℤ → Option ℕ
positive? (pos zero) = none
positive? (pos (suc n)) = some (suc n)
positive? (negsuc n) = none
