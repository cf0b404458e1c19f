-- ===== src/Finalization/ResolutionSet/Complete.antt =====
-- A resolution set has one entry for every expected item and no other, in the order of the keys,
-- whatever order the entries came in.
use mathlib.Core.List.{Permᴰ}
use qarunner.Prelude.{
  Bool, Bool-cases, List, [], any, ap, arith, false, inl, inr, is_blank, is_empty, map, none, ok,
  refl, sym, true, ◌↔◌, ◌∙◌, ◌∷◌, ◌≡◌,
}
use qarunner.Prelude.Sorting.{has_clash, sort_by}
use qarunner.Prelude.Sorting.Laws.{
  Ascends, any-perm, has_clash-perm, more, none, one, sort_by-Ascends, sort_by-perm, sort_by-permᴰ,
}
use qarunner.Finalization.Keys.{RunItemKey, key_eq, key_le}
use qarunner.Finalization.Keys.Order.{key_eq_iff, key_eq_sym, key_le-IsOrder}
use qarunner.Finalization.Items.Entry.{RunItemResolution}
use qarunner.Finalization.ResolutionSet.{
  Envelope, RunItemResolutionSet, build_set, is_ordered, is_subset, item_key, repeats_key,
  same_keys, set_post_init,
}

pub map-perm :
    {xs ys : List RunItemResolution} → Permᴰ xs ys → Permᴰ (map item_key xs) (map item_key ys)
map-perm Permᴰ.nil = Permᴰ.nil
map-perm (Permᴰ.cons e d) = Permᴰ.cons (ap item_key e) (map-perm d)
map-perm (Permᴰ.swap e f) = Permᴰ.swap (ap item_key e) (ap item_key f)
map-perm (Permᴰ.trans d e) = Permᴰ.trans (map-perm d) (map-perm e)

pub repeats_key-perm : {xs ys : List RunItemKey} → Permᴰ xs ys → repeats_key xs ≡ repeats_key ys
unfolding repeats_key
repeats_key-perm = has_clash-perm key_eq key_eq_sym

is_subset_left :
    {xs ys : List RunItemKey} (zs : List RunItemKey)
    → Permᴰ xs ys
    → is_subset xs zs ≡ is_subset ys zs
unfolding is_subset
is_subset_left zs Permᴰ.nil = refl
is_subset_left zs (Permᴰ.cons e d) =
    ground (arith, ap (λ k. any (key_eq k) zs) e, is_subset_left zs d)
is_subset_left zs (Permᴰ.swap e f) =
    ground (arith, ap (λ k. any (key_eq k) zs) e, ap (λ k. any (key_eq k) zs) f)
is_subset_left zs (Permᴰ.trans d e) = is_subset_left zs d ∙ is_subset_left zs e

is_subset_right :
    (zs : List RunItemKey) {xs ys : List RunItemKey}
    → Permᴰ xs ys
    → is_subset zs xs ≡ is_subset zs ys
unfolding is_subset
is_subset_right [] p = refl
is_subset_right (z ∷ zs) p = ground (arith, any-perm (key_eq z) p, is_subset_right zs p)

same_keys-perm :
    (zs : List RunItemKey) {xs ys : List RunItemKey}
    → Permᴰ xs ys
    → same_keys xs zs ≡ same_keys ys zs
unfolding same_keys
same_keys-perm zs p = ground (arith, is_subset_left zs p, is_subset_right zs p)

any-map :
    (k : RunItemKey) (xs : List RunItemResolution)
    → any (λ r. key_eq k r.item_key) xs ≡ any (key_eq k) (map item_key xs)
any-map k [] = refl
any-map k (x ∷ xs) = ground (arith, any-map k xs)

abbrev clash : RunItemResolution → RunItemResolution → Bool
clash a b = key_eq a.item_key b.item_key

repeats_key-map : (xs : List RunItemResolution) → repeats_key (map item_key xs) ≡ has_clash clash xs
unfolding repeats_key has_clash
repeats_key-map [] = refl
repeats_key-map (x ∷ xs) = ground (arith, any-map x.item_key xs, repeats_key-map xs)

sorted-perm :
    {xs ys : List RunItemResolution}
    → Permᴰ xs ys
    → repeats_key (map item_key xs) ≡ false
    → sort_by item_key key_le xs ≡ sort_by item_key key_le ys
sorted-perm {xs} p h =
    sort_by-perm item_key key_le key_le-IsOrder clash (λ a b. key_eq_sym a.item_key b.item_key)
      (λ a b g e. ground (arith, key_eq_iff a.item_key b.item_key)) p (sym (repeats_key-map xs) ∙ h)

is_ordered_sorted :
    {l : List RunItemResolution}
    → Ascends item_key key_le key_le-IsOrder l
    → is_ordered (map item_key l) ≡ true
unfolding is_ordered
is_ordered_sorted none = refl
is_ordered_sorted one = refl
is_ordered_sorted (more h rest) = ground (arith, is_ordered_sorted rest)

is_subset-any :
    (xs ys : List RunItemKey) (k : RunItemKey)
    → is_subset xs ys ≡ true
    → any (key_eq k) xs ≡ true
    → any (key_eq k) ys ≡ true
unfolding is_subset
is_subset-any [] ys k h g = cc
is_subset-any (x ∷ xs) ys k h g =
    ground
      (arith, key_eq_iff k x, λ (e : k ≡ x). ap (λ z. any (key_eq z) ys) e, is_subset-any xs ys k)

any-is_subset :
    (xs ys : List RunItemKey)
    → ((k : RunItemKey) → any (key_eq k) xs ≡ true → any (key_eq k) ys ≡ true)
    → is_subset xs ys ≡ true
unfolding is_subset
any-is_subset [] ys h = refl
any-is_subset (x ∷ xs) ys h =
    ground (arith, h x, key_eq_iff x x, any-is_subset xs ys (λ k g. h k (ground (arith, g))))

same_keys_iff :
    (xs ys : List RunItemKey)
    → (same_keys xs ys ≡ true) ↔ ((k : RunItemKey) → any (key_eq k) xs ≡ any (key_eq k) ys)
unfolding same_keys
same_keys_iff xs ys = (
  λ h k. ground (arith, is_subset-any xs ys k, is_subset-any ys xs k),
  λ h.
      ground
        (arith, any-is_subset xs ys (λ k g. sym (h k) ∙ g), any-is_subset ys xs (λ k g. h k ∙ g)),
)

-- What makes a list of entries complete.
pub record Buildable (expected : List RunItemKey) (entries : List RunItemResolution) (e : Envelope)
    : Type 0 where
  pub batch_named : is_blank e.batch_id ≡ false
  pub run_named : is_blank e.run_id ≡ false
  pub some_entry : is_empty entries ≡ false
  pub once : repeats_key (map item_key entries) ≡ false
  pub expected_once : repeats_key expected ≡ false
  pub covers : (k : RunItemKey) → any (key_eq k) (map item_key entries) ≡ any (key_eq k) expected

pub record Built (entries : List RunItemResolution) (e : Envelope) (s : RunItemResolutionSet)
    : Type 0 where
  pub enveloped : s.envelope ≡ e
  pub keeps : Permᴰ s.entries entries
  pub ascends : Ascends item_key key_le key_le-IsOrder s.entries

is_empty-perm : {xs ys : List RunItemResolution} → Permᴰ xs ys → is_empty xs ≡ is_empty ys
is_empty-perm Permᴰ.nil = refl
is_empty-perm (Permᴰ.cons e d) = refl
is_empty-perm (Permᴰ.swap e f) = refl
is_empty-perm (Permᴰ.trans d e) = is_empty-perm d ∙ is_empty-perm e

module _ (expected : List RunItemKey) (entries : List RunItemResolution) (e : Envelope) where
  abbrev sorted_set : RunItemResolutionSet
  sorted_set = record { envelope = e; entries = sort_by item_key key_le entries }

  kept : Permᴰ sorted_set.entries entries
  kept = sort_by-permᴰ item_key key_le key_le-IsOrder entries

  ascending : Ascends item_key key_le key_le-IsOrder sorted_set.entries
  ascending = sort_by-Ascends item_key key_le key_le-IsOrder entries

  sorted-Built : Built entries e sorted_set
  sorted-Built = record { enveloped = refl; keeps = kept; ascends = ascending }

  -- The constructor's own tests of the sorted entries.
  set_post_init_iff :
      (s : RunItemResolutionSet)
      → (set_post_init sorted_set ≡ ok s)
        ↔ (s ≡ sorted_set)
          × (is_blank e.batch_id ≡ false)
          × (is_blank e.run_id ≡ false)
          × (is_empty entries ≡ false)
          × (repeats_key (map item_key entries) ≡ false)
  unfolding set_post_init
  set_post_init_iff s =
      ground
        (arith, is_empty-perm kept, repeats_key-perm (map-perm kept), is_ordered_sorted ascending)

  -- `build` succeeds exactly when the identities are not blank, there is an entry, no key occurs
  -- twice among the entries or among the expected keys, and the entries' keys are the expected
  -- keys. The set then has the given envelope, and the given entries in ascending order of their
  -- keys.
  pub build_set_iff :
      ((s : RunItemResolutionSet) × (build_set expected entries e ≡ ok s) × Built entries e s)
      ↔ Buildable expected entries e
  unfolding build_set
  build_set_iff = (
    λ (s, h, b). ground (arith, set_post_init_iff s, same_keys_iff (map item_key entries) expected),
    λ h. (
      sorted_set,
      ground (arith, set_post_init_iff sorted_set, same_keys_iff (map item_key entries) expected),
      sorted-Built,
    ),
  )

  pub build_set-Built :
      (s : RunItemResolutionSet) → build_set expected entries e ≡ ok s → Built entries e s
  unfolding build_set
  build_set-Built s h = ground (arith, set_post_init_iff s, sorted-Built)

-- Two orders of the same entries give the same result: the same set, and so the same digests, or
-- the same refusal.
pub build_set-perm :
    (expected : List RunItemKey) (e : Envelope) {xs ys : List RunItemResolution}
    → Permᴰ xs ys
    → build_set expected xs e ≡ build_set expected ys e
unfolding build_set
build_set-perm expected e {xs} {ys} p = elim (Bool-cases (repeats_key (map item_key xs))) [
  | inl h ↦ ground (arith, repeats_key-perm (map-perm p))
  | inr h ↦
      ground (
        arith,
        repeats_key-perm (map-perm p),
        same_keys-perm expected (map-perm p),
        sorted-perm p h,
      )
]
