-- ===== src/Evidence/Ordering/Canonical.antt =====
-- The sorted artifacts do not depend on the order in which they came.
use mathlib.Core.List.{Permᴰ}
use qarunner.Prelude.{
  List, [], arith, codes-injective, false, refl, same_iff, true, ℕ, ◌∷◌, ◌≡◌, ◌≢◌,
}
use qarunner.Prelude.Sorting.Laws.{IsOrder, has_clash-perm, sort_by-perm, sort_by-permᴰ}
use qarunner.Evidence.Ordering.{
  VerifiedArtifact, clashes, codes_le, has_duplicate_path, key, sorted,
}

codes_le_total : (xs bs : List ℕ) → codes_le xs bs ≡ false → codes_le bs xs ≡ true
unfolding codes_le
codes_le_total [] bs h = cc
codes_le_total (a ∷ xs) [] h = refl
codes_le_total (a ∷ xs) (b ∷ bs) h = ground (arith, codes_le_total xs bs)

codes_le_antisym : (xs bs : List ℕ) → codes_le xs bs ≡ true → codes_le bs xs ≡ true → xs ≡ bs
unfolding codes_le
codes_le_antisym [] [] h k = refl
codes_le_antisym [] (b ∷ bs) h k = cc
codes_le_antisym (a ∷ xs) [] h k = cc
codes_le_antisym (a ∷ xs) (b ∷ bs) h k = ground (arith, codes_le_antisym xs bs)

codes_le_trans :
    (xs bs cs : List ℕ) → codes_le xs bs ≡ true → codes_le bs cs ≡ true → codes_le xs cs ≡ true
unfolding codes_le
codes_le_trans [] bs cs h k = refl
codes_le_trans (a ∷ xs) [] cs h k = cc
codes_le_trans (a ∷ xs) (b ∷ bs) [] h k = cc
codes_le_trans (a ∷ xs) (b ∷ bs) (c ∷ cs) h k = ground (arith, codes_le_trans xs bs cs)

-- The order of the code points is a total order.
pub codes_le-IsOrder : IsOrder codes_le
codes_le-IsOrder = record {
  total = codes_le_total;
  antisym = codes_le_antisym;
  trans = codes_le_trans;
}

clashes_sym : (a b : VerifiedArtifact) → clashes a b ≡ clashes b a
clashes_sym a b =
    ground (arith, same_iff a.path.value b.path.value, same_iff b.path.value a.path.value)

clashes_apart : (a b : VerifiedArtifact) → clashes a b ≡ false → key a ≢ key b
clashes_apart a b h e =
    ground (arith, same_iff a.path.value b.path.value, codes-injective a.path.value b.path.value e)

-- Whether a path occurs twice does not depend on the order.
pub has_duplicate_path-perm :
    {xs ys : List VerifiedArtifact} → Permᴰ xs ys → has_duplicate_path xs ≡ has_duplicate_path ys
unfolding has_duplicate_path
has_duplicate_path-perm = has_clash-perm clashes clashes_sym

-- Artifacts with distinct paths are sorted into the same list whatever order they came in.
pub sorted-perm :
    {xs ys : List VerifiedArtifact}
    → Permᴰ xs ys
    → has_duplicate_path xs ≡ false
    → sorted xs ≡ sorted ys
unfolding sorted has_duplicate_path
sorted-perm p h = sort_by-perm key codes_le codes_le-IsOrder clashes clashes_sym clashes_apart p h

-- Sorting keeps the artifacts, each as often as it came.
pub sorted-permᴰ : (l : List VerifiedArtifact) → Permᴰ (sorted l) l
unfolding sorted
sorted-permᴰ l = sort_by-permᴰ key codes_le codes_le-IsOrder l
