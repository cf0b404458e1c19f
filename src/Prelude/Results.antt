-- ===== src/Prelude/Results.antt =====
-- Code that raises: a result is a value or the exception.
use mathlib.Core.Path.{◌≡◌, refl}
use mathlib.Core.Bool.{Bool, true, false}

pub data Result {ℓ κ} (E : Type ℓ) (A : Type κ) : Type (ℓ ⊔ κ) where
  ok : A → Result E A
  raised : E → Result E A

infixl 5 ◌>>=◌ ◌>>◌
abbrev pub ◌>>=◌ {ℓ κ μ} :
    {E : Type ℓ} {A : Type κ} {B : Type μ} → Result E A → (A → Result E B) → Result E B
ok a >>= f = f a
raised e >>= f = raised e

abbrev pub ◌>>◌ {ℓ μ} : {E : Type ℓ} {B : Type μ} → Result E (Unit {0}) → Result E B → Result E B
m >> k = m >>= λ _. k

-- `if test: raise e`.
abbrev pub raise_if {ℓ} : {E : Type ℓ} → Bool → E → Result E (Unit {0})
raise_if true e = raised e
raise_if false e = ok tt

-- A chain that succeeds has a first step that succeeds, and goes on from its value.
pub >>=-eq-ok {ℓ κ μ} :
    {X : Type ℓ} {Y : Type κ} {F : Type μ} {y : Y} (first : Result F X) (rest : X → Result F Y)
    → (first >>= rest) ≡ ok y
    → (x : X) × (first ≡ ok x) × (rest x ≡ ok y)
>>=-eq-ok (raised problem) rest same = cc
>>=-eq-ok (ok x) rest same = (x, refl, same)
