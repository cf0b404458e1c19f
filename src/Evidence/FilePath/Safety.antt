-- ===== src/Evidence/FilePath/Safety.antt =====
-- An accepted path names a place below the directory that it is read from.
use qarunner.Prelude.{
  List, Option, [], any, arith, codes, false, if◌then◌else◌, none, ok, refl, some, sym, ℕ, ◌&&◌,
  ◌++◌, ◌==◌, ◌∷◌, ◌≡◌, ◌≢◌,
}
use mathlib.Core.List.{append-nil, append_assoc}
use qarunner.Evidence.FilePath.{
  ArtifactPath, is_unsafe_segment, path_post_init, segments, split_slash,
}

data Kind : Type 0 where
  stay : Kind
  up : Kind
  enter : Kind

kind_of : List ℕ → Kind
kind_of [] = stay
kind_of (a ∷ []) = if a == b'.' then stay else enter
kind_of (a ∷ b ∷ []) = if a == b'.' && b == b'.' then up else enter
kind_of (a ∷ b ∷ c ∷ cs) = enter

-- How a POSIX system walks a relative path: a stack of names below the start, and `none` once `..`
-- leaves the start.
pub walk : List (List ℕ) → List (List ℕ) → Option (List (List ℕ))
unfolding kind_of
walk below [] = some below
walk below (segment ∷ rest) = elim (kind_of segment) [
  | stay ↦ walk below rest
  | up ↦ elim below [ [] ↦ none | name ∷ above ↦ walk above rest ]
  | enter ↦ walk (segment ∷ below) rest
]

abbrev pub reverse_onto {ℓ} : {A : Type ℓ} → List A → List A → List A
reverse_onto ys [] = ys
reverse_onto ys (x ∷ xs) = reverse_onto (x ∷ ys) xs

-- `"/".join(segments)`.
abbrev pub join_slash : List (List ℕ) → List ℕ
join_slash [] = []
join_slash (s ∷ []) = s
join_slash (s ∷ t ∷ rest) = s ++ b'/' ∷ join_slash (t ∷ rest)

kind_of-enter : (s : List ℕ) → is_unsafe_segment s ≡ false → kind_of s ≡ enter
unfolding kind_of
kind_of-enter [] h = cc
kind_of-enter (a ∷ []) h = ground arith
kind_of-enter (a ∷ b ∷ []) h = ground arith
kind_of-enter (a ∷ b ∷ c ∷ cs) h = refl

walk_safe :
    (below rest : List (List ℕ))
    → any is_unsafe_segment rest ≡ false
    → walk below rest ≡ some (reverse_onto below rest)
unfolding walk
walk_safe below [] h = refl
walk_safe below (s ∷ rest) h = ground (arith, kind_of-enter s, walk_safe (s ∷ below) rest)

split_slash-ne-nil : (s cs : List ℕ) → split_slash s cs ≢ []
unfolding split_slash
split_slash-ne-nil s [] h = cc
split_slash-ne-nil s (c ∷ cs) h = ground (arith, split_slash-ne-nil (s ++ c ∷ []) cs)

join-cons :
    (s : List ℕ) (xs : List (List ℕ)) → xs ≢ [] → join_slash (s ∷ xs) ≡ s ++ b'/' ∷ join_slash xs
join-cons s [] h = absurd (h refl)
join-cons s (x ∷ xs) h = refl

join-split_slash : (s cs : List ℕ) → join_slash (split_slash s cs) ≡ s ++ cs
unfolding split_slash
join-split_slash s [] = sym (append-nil s)
join-split_slash s (c ∷ cs) = ground (
  arith,
  split_slash-ne-nil [] cs,
  join-cons s (split_slash [] cs),
  join-split_slash [] cs,
  join-split_slash (s ++ c ∷ []) cs,
  append_assoc s (c ∷ []) cs,
)

-- The segments of a path, joined by slashes, are the path again.
pub join-segments : (p : ArtifactPath) → join_slash (segments p) ≡ codes p.value
join-segments p = join-split_slash [] (codes p.value)

-- An accepted path, walked from a directory as a POSIX system does, enters one name for each of its
-- segments and never leaves the directory.
pub path_stays_below :
    (p q : ArtifactPath)
    → path_post_init p ≡ ok q
    → walk [] (segments p) ≡ some (reverse_onto [] (segments p))
unfolding path_post_init
path_stays_below p q h = walk_safe [] (segments p) (ground arith)
