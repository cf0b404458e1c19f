-- ===== src/Prelude/Sorting.antt =====
-- Python's `sorted(values, key=…)` and the test for a repeated key.
pub mod Laws
use mathlib.Core.Bool.{Bool, true, false, ◌||◌}
use mathlib.Core.List.{List, [], ◌∷◌}
use qarunner.Prelude.Tests.{if◌then◌else◌}
use qarunner.Prelude.Lists.{any}

module _ {ℓ κ} {A : Type ℓ} {K : Type κ} (key : A → K) (le : K → K → Bool) where
  -- The sort is stable: insertion before the first key that is not smaller.
  pub insert : A → List A → List A
  insert a [] = a ∷ []
  insert a (b ∷ bs) = if le (key a) (key b) then a ∷ b ∷ bs else b ∷ insert a bs

  unfoldable pub sort_by : List A → List A
  unfolding insert
  sort_by [] = []
  sort_by (a ∷ xs) = insert a (sort_by xs)

-- `len({key(x) for x in xs}) != len(xs)`, for a test that two elements clash.
unfoldable pub has_clash {ℓ} : {A : Type ℓ} → (A → A → Bool) → List A → Bool
has_clash clash [] = false
has_clash clash (a ∷ xs) = any (clash a) xs || has_clash clash xs
