-- ===== src/Prelude/Sorting/Laws.antt =====
-- A sort by a total order keeps the elements, ascends, and does not depend on the order in which
-- elements with different keys came.
use mathlib.Core.List.Permᴰ
use mathlib.Core.List.{Permᴰ}
use mathlib.Core.Path.{◌≡◌, refl, sym, ap, ap₂, ◌∙◌}
use mathlib.Core.Logic.{◌≢◌, inl, inr}
use mathlib.Core.Bool.{Bool, true, false}
use mathlib.Core.List.{List, [], ◌∷◌}
use native.Mathlib.Omega.{arith}
use qarunner.Prelude.Tests.{Bool-cases, if◌then◌else◌}
use qarunner.Prelude.Lists.{any}
use qarunner.Prelude.Sorting.{has_clash, insert, sort_by}

pub record IsOrder {κ} {K : Type κ} (le : K → K → Bool) : Type κ where
  pub total : (a b : K) → le a b ≡ false → le b a ≡ true
  pub antisym : (a b : K) → le a b ≡ true → le b a ≡ true → a ≡ b
  pub trans : (a b c : K) → le a b ≡ true → le b c ≡ true → le a c ≡ true

pub any-perm {ℓ} : {A : Type ℓ} (p : A → Bool) {xs ys : List A} → Permᴰ xs ys → any p xs ≡ any p ys
any-perm p Permᴰ.nil = refl
any-perm p (Permᴰ.cons {a = a} {b = b} e d) = cc (any-perm p d, ap p e)
any-perm p (Permᴰ.swap {a = a} {b = b} {a' = c} {b' = d} {l = l} e f) =
    ground (arith, ap p e, ap p f)
any-perm p (Permᴰ.trans d e) = any-perm p d ∙ any-perm p e

module _ {ℓ} {A : Type ℓ} (clash : A → A → Bool)
    (clash_sym : (a b : A) → clash a b ≡ clash b a) where
  -- Whether two elements clash does not depend on the order.
  pub has_clash-perm : {xs ys : List A} → Permᴰ xs ys → has_clash clash xs ≡ has_clash clash ys
  unfolding has_clash
  has_clash-perm Permᴰ.nil = refl
  has_clash-perm (Permᴰ.cons {a = a} {b = b} {l₂ = l} e d) =
      ground (arith, any-perm (clash a) d, ap (λ c. any (clash c) l) e, has_clash-perm d)
  has_clash-perm (Permᴰ.swap {a = a} {b = b} {a' = c} {b' = d} {l = l} e f) = ground (
    arith,
    ap (λ x. any (clash x) l) e,
    ap (λ x. any (clash x) l) f,
    ap₂ clash e f,
    clash_sym c d,
  )
  has_clash-perm (Permᴰ.trans d e) = has_clash-perm d ∙ has_clash-perm e

module _ {ℓ κ} {A : Type ℓ} {K : Type κ} (key : A → K) (le : K → K → Bool)
    (order : IsOrder le) where
  insert_comm :
      (a b : A) (l : List A)
      → key a ≢ key b
      → insert key le a (insert key le b l) ≡ insert key le b (insert key le a l)
  unfolding insert
  insert_comm a b [] n = ground (arith, order.total (key a) (key b), order.antisym (key a) (key b))
  insert_comm a b (c ∷ l) n = ground (
    arith,
    order.total (key a) (key b),
    order.antisym (key a) (key b),
    order.total (key a) (key c),
    order.total (key b) (key c),
    order.trans (key a) (key b) (key c),
    order.trans (key b) (key a) (key c),
    order.trans (key a) (key c) (key b),
    order.trans (key b) (key c) (key a),
    insert_comm a b l n,
  )

  -- Elements that do not clash are sorted into the same list whatever order they came in.
  pub sort_by-perm :
      (clash : A → A → Bool) {xs ys : List A}
      → ((a b : A) → clash a b ≡ clash b a)
      → ((a b : A) → clash a b ≡ false → key a ≢ key b)
      → Permᴰ xs ys
      → has_clash clash xs ≡ false
      → sort_by key le xs ≡ sort_by key le ys
  unfolding sort_by
  sort_by-perm clash symmetric apart Permᴰ.nil h = refl
  sort_by-perm clash symmetric apart (Permᴰ.cons {a = a} {b = b} {l₁ = k} {l₂ = l} e d) h =
      ap₂ (insert key le) e (sort_by-perm clash symmetric apart d (tail_distinct h))
    where
      tail_distinct : has_clash clash (a ∷ k) ≡ false → has_clash clash k ≡ false
      tail_distinct g = unfold has_clash in ground arith
  sort_by-perm clash symmetric apart (Permᴰ.swap {a = a} {b = b} {l = l} e f) h =
      insert_comm a b (sort_by key le l) (apart a b (heads_distinct h))
      ∙ ap₂ (λ x y. insert key le x (insert key le y (sort_by key le l))) f e
    where
      heads_distinct : has_clash clash (a ∷ b ∷ l) ≡ false → clash a b ≡ false
      heads_distinct g = unfold has_clash in ground arith
  sort_by-perm clash symmetric apart (Permᴰ.trans d e) h =
      sort_by-perm clash symmetric apart d h
      ∙ sort_by-perm clash symmetric apart e (sym (has_clash-perm clash symmetric d) ∙ h)

  insert-permᴰ : (a : A) (l : List A) → Permᴰ (insert key le a l) (a ∷ l)
  unfolding insert
  insert-permᴰ a [] = Permᴰ.refl (a ∷ [])
  insert-permᴰ a (b ∷ l) = elim (Bool-cases (le (key a) (key b))) [
    | inl e ↦ rw e (Permᴰ.refl (a ∷ b ∷ l))
    | inr e ↦ rw e (Permᴰ.trans (Permᴰ.cons refl (insert-permᴰ a l)) (Permᴰ.swap refl refl))
  ]

  -- Sorting keeps the elements, each as often as it came.
  pub sort_by-permᴰ : (l : List A) → Permᴰ (sort_by key le l) l
  unfolding sort_by
  sort_by-permᴰ [] = Permᴰ.nil
  sort_by-permᴰ (a ∷ l) =
      Permᴰ.trans (insert-permᴰ a (sort_by key le l)) (Permᴰ.cons refl (sort_by-permᴰ l))

  -- Every element is at most the one after it.
  pub data Ascends : List A → Type (ℓ ⊔ κ) where
    none : Ascends []
    one : {a : A} → Ascends (a ∷ [])
    more :
        {a b : A} {l : List A} → le (key a) (key b) ≡ true → Ascends (b ∷ l) → Ascends (a ∷ b ∷ l)

  -- The two places of an element before a list that ascends.
  placed :
      (test : Bool) {a b c : A} (l k : List A)
      → le (key b) (key a) ≡ true
      → le (key b) (key c) ≡ true
      → Ascends (if test then a ∷ c ∷ l else c ∷ k)
      → Ascends (b ∷ (if test then a ∷ c ∷ l else c ∷ k))
  placed true l k p q below = more p below
  placed false l k p q below = more q below

  insert-Ascends : (a : A) {l : List A} → Ascends l → Ascends (insert key le a l)
  unfolding insert
  insert-Ascends a none = one
  insert-Ascends a (one {a = b}) = elim (Bool-cases (le (key a) (key b))) [
    | inl e ↦ rw e (more e one)
    | inr e ↦ rw e (more (order.total (key a) (key b) e) one)
  ]
  insert-Ascends a (more {a = b} {b = c} {l = l} h rest) = elim (Bool-cases (le (key a) (key b))) [
    | inl e ↦ rw e (more e (more h rest))
    | inr e ↦ rw e (
        placed (le (key a) (key c)) l (insert key le a l) (order.total (key a) (key b) e) h
          (insert-Ascends a rest))
  ]

  pub sort_by-Ascends : (l : List A) → Ascends (sort_by key le l)
  unfolding sort_by
  sort_by-Ascends [] = none
  sort_by-Ascends (a ∷ l) = insert-Ascends a (sort_by-Ascends l)

  -- A list that ascends is its own sorted list.
  pub sort_by-Ascends_same : {l : List A} → Ascends l → sort_by key le l ≡ l
  unfolding sort_by insert
  sort_by-Ascends_same none = refl
  sort_by-Ascends_same one = refl
  sort_by-Ascends_same (more {a = a} h rest) =
      ap (insert key le a) (sort_by-Ascends_same rest) ∙ rw h refl
