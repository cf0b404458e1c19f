-- ===== src/Prelude/Lists.antt =====
-- Lists over the native numbers.
use Prim.Native.Nat.{ℕ, suc}
use mathlib.Core.Bool.{Bool, true, false, ◌||◌}
use mathlib.Core.List.{List, [], ◌∷◌}
use mathlib.Core.Option.{Option, none, some}
use qarunner.Prelude.Tests.{if◌then◌else◌}

module _ {ℓ} {A : Type ℓ} where
  abbrev pub length : List A → ℕ
  length [] = 0
  length (x ∷ xs) = suc (length xs)

  abbrev pub is_empty : List A → Bool
  is_empty [] = true
  is_empty (x ∷ xs) = false

  abbrev pub any : (A → Bool) → List A → Bool
  any p [] = false
  any p (x ∷ xs) = p x || any p xs

  -- `next((x for x in xs if p(x)), None)`.
  unfoldable pub first_such : (A → Bool) → List A → Option A
  first_such p [] = none
  first_such p (x ∷ xs) = if p x then some x else first_such p xs

  abbrev pub or_else : Option A → Option A → Option A
  or_else (some x) other = some x
  or_else none other = other

  -- `next((x for x in reversed(xs) if p(x)), None)`.
  unfoldable pub last_such : (A → Bool) → List A → Option A
  last_such p [] = none
  last_such p (x ∷ xs) = or_else (last_such p xs) (if p x then some x else none)

  -- `xs[-1] if xs else None`.
  abbrev pub last : List A → Option A
  last [] = none
  last (x ∷ []) = some x
  last (x ∷ y ∷ ys) = last (y ∷ ys)

  -- `(*xs[:-1], u)`.
  abbrev pub with_last : List A → A → List A
  with_last [] u = u ∷ []
  with_last (x ∷ []) u = u ∷ []
  with_last (x ∷ y ∷ ys) u = x ∷ with_last (y ∷ ys) u
