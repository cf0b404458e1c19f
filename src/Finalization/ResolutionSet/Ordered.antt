-- ===== src/Finalization/ResolutionSet/Ordered.antt =====
-- The test for the order of the keys compares them with their sorted list.
use mathlib.Core.Path.{subst}
use qarunner.Prelude.{List, [], arith, none, refl, true, ◌↔◌, ◌∷◌, ◌≡◌}
use qarunner.Prelude.Sorting.{sort_by}
use qarunner.Prelude.Sorting.Laws.{Ascends, more, none, one, sort_by-Ascends, sort_by-Ascends_same}
use qarunner.Finalization.Keys.{RunItemKey, key_le}
use qarunner.Finalization.Keys.Order.{key_le-IsOrder}
use qarunner.Finalization.ResolutionSet.{is_ordered}

abbrev self : RunItemKey → RunItemKey
self k = k

ascending_is_ordered :
    {l : List RunItemKey} → Ascends self key_le key_le-IsOrder l → is_ordered l ≡ true
unfolding is_ordered
ascending_is_ordered none = refl
ascending_is_ordered one = refl
ascending_is_ordered (more h rest) = ground (arith, ascending_is_ordered rest)

is_ordered-Ascends :
    (l : List RunItemKey) → is_ordered l ≡ true → Ascends self key_le key_le-IsOrder l
unfolding is_ordered
is_ordered-Ascends [] h = none
is_ordered-Ascends (a ∷ []) h = one
is_ordered-Ascends (a ∷ b ∷ rest) h =
    more (ground arith) (is_ordered-Ascends (b ∷ rest) (ground arith))

-- The test passes exactly for keys that sorting leaves as they are.
is_ordered_iff : (l : List RunItemKey) → (is_ordered l ≡ true) ↔ (sort_by self key_le l ≡ l)
is_ordered_iff l = (
  λ h. sort_by-Ascends_same self key_le key_le-IsOrder (is_ordered-Ascends l h),
  λ e.
      ascending_is_ordered (
        subst (Ascends self key_le key_le-IsOrder) e
          (sort_by-Ascends self key_le key_le-IsOrder l)),
)
