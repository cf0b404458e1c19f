-- ===== src/Evidence/Manifest/Ordered.antt =====
-- What the sort of the artifacts and the search for a repeated path show.
use mathlib.Core.List.{Memᴰ}
use qarunner.Prelude.{
  Bool-cases, List, String, [], ap, arith, codes, codes-injective, false, inl, inr, ltb, none, refl,
  same, same_iff, some, true, ℕ, ◌<◌, ◌∙◌, ◌∷◌, ◌≡◌, ◌≢◌,
}
use qarunner.Prelude.Members.{Memᴰ-any}
use qarunner.Prelude.Sorting.{has_clash}
use qarunner.Prelude.Sorting.Laws.{Ascends, more, none, one, sort_by-Ascends}
use qarunner.Evidence.Ordering.{
  VerifiedArtifact, clashes, codes_le, has_duplicate_path, key, sorted,
}
use qarunner.Evidence.Ordering.Canonical.{codes_le-IsOrder}
use qarunner.Evidence.Manifest.{find_path}

-- No artifact has the path of a later one.
abbrev pub DistinctPaths : List VerifiedArtifact → Type 0
DistinctPaths [] = Unit {0}
DistinctPaths (a ∷ rest) =
    ((b : VerifiedArtifact) → Memᴰ b rest → a.path.value ≢ b.path.value) × DistinctPaths rest

has_duplicate_path-DistinctPaths :
    (l : List VerifiedArtifact) → has_duplicate_path l ≡ false → DistinctPaths l
unfolding has_duplicate_path has_clash
has_duplicate_path-DistinctPaths [] h = tt
has_duplicate_path-DistinctPaths (a ∷ rest) h = (
  (λ b m e.
      let met = Memᴰ-any (clashes a) m ((same_iff a.path.value b.path.value).1 e) in
      ground (arith, h, met)),
  has_duplicate_path-DistinctPaths rest (ground (arith, h)),
)

-- One text before another, by the code points.
pub data Before : List ℕ → List ℕ → Type 0 where
  shorter : {b : ℕ} {ys : List ℕ} → Before [] (b ∷ ys)
  smaller : {a b : ℕ} {xs ys : List ℕ} → a < b → Before (a ∷ xs) (b ∷ ys)
  further : {a b : ℕ} {xs ys : List ℕ} → a ≡ b → Before xs ys → Before (a ∷ xs) (b ∷ ys)

codes_le-Before : (xs ys : List ℕ) → codes_le xs ys ≡ true → xs ≢ ys → Before xs ys
unfolding codes_le
codes_le-Before [] [] h n = absurd (n refl)
codes_le-Before [] (b ∷ ys) h n = shorter
codes_le-Before (a ∷ xs) [] h n = cc
codes_le-Before (a ∷ xs) (b ∷ ys) h n = elim (Bool-cases (ltb a b)) [
  | inl e ↦ smaller (ground (arith, e))
  | inr e ↦
      let same_one : a ≡ b = ground (arith, e, h) in
      further same_one (codes_le-Before xs ys (ground (arith, e, h)) (λ k. n (cc (same_one, k))))
]

-- Each path is before the next one.
abbrev pub InOrder : List VerifiedArtifact → Type 0
InOrder [] = Unit {0}
InOrder (a ∷ []) = Unit {0}
InOrder (a ∷ b ∷ rest) = Before (codes a.path.value) (codes b.path.value) × InOrder (b ∷ rest)

Ascends-InOrder :
    {l : List VerifiedArtifact}
    → Ascends key codes_le codes_le-IsOrder l
    → DistinctPaths l
    → InOrder l
Ascends-InOrder none d = tt
Ascends-InOrder one d = tt
Ascends-InOrder (more {a = a} {b = b} h rest) d = (
  codes_le-Before (codes a.path.value) (codes b.path.value) h
      (λ e. d.0 b (Memᴰ.head refl) (codes-injective a.path.value b.path.value e)),
  Ascends-InOrder rest d.1,
)

-- The sorted artifacts without a repeated path.
pub sorted-InOrder :
    (l : List VerifiedArtifact)
    → has_duplicate_path (sorted l) ≡ false
    → DistinctPaths (sorted l) × InOrder (sorted l)
unfolding sorted
sorted-InOrder l h =
    let d = has_duplicate_path-DistinctPaths (sorted l) h in
    (d, Ascends-InOrder (sort_by-Ascends key codes_le codes_le-IsOrder l) d)

pub find_path-Memᴰ :
    (p : String) (l : List VerifiedArtifact) (f : VerifiedArtifact)
    → find_path p l ≡ some f
    → Memᴰ f l × (f.path.value ≡ p)
unfolding find_path
find_path-Memᴰ p [] f h = cc
find_path-Memᴰ p (a ∷ rest) f h = elim (Bool-cases (same a.path.value p)) [
  | inl e ↦
      let found : f ≡ a = ground (arith, e, h) in
      (Memᴰ.head found, ap (λ x. x.path.value) found ∙ (same_iff a.path.value p).0 e)
  | inr e ↦ let (m, k) = find_path-Memᴰ p rest f (ground (arith, e, h)) in (Memᴰ.tail m, k)
]
