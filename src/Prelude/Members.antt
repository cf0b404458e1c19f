-- ===== src/Prelude/Members.antt =====
-- What the tests on lists say of their members.
use mathlib.Core.List.{Memᴰ}
use mathlib.Core.Path.{◌≡◌, refl, ap}
use mathlib.Core.Logic.{inl, inr}
use mathlib.Core.Bool.{Bool, true}
use mathlib.Core.List.{List, [], ◌∷◌}
use native.Mathlib.Omega.{arith}
use qarunner.Prelude.Tests.{Bool-cases}
use qarunner.Prelude.Lists.{any}

module _ {ℓ} {A : Type ℓ} (p : A → Bool) where
  pub any-Memᴰ : (l : List A) → any p l ≡ true → (x : A) × Memᴰ x l × (p x ≡ true)
  any-Memᴰ [] h = cc
  any-Memᴰ (a ∷ rest) h = elim (Bool-cases (p a)) [
    | inl e ↦ (a, Memᴰ.head refl, e)
    | inr e ↦ let (x, m, k) = any-Memᴰ rest (ground (arith, e, h)) in (x, Memᴰ.tail m, k)
  ]

  pub Memᴰ-any : {x : A} {l : List A} → Memᴰ x l → p x ≡ true → any p l ≡ true
  Memᴰ-any (Memᴰ.head e) h = ground (arith, ap p e)
  Memᴰ-any (Memᴰ.tail m) h = ground (arith, Memᴰ-any m h)
