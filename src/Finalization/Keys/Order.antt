-- ===== src/Finalization/Keys/Order.antt =====
-- The item keys are in a total order, and their test for equality decides it.
use qarunner.Prelude.{arith, codes, codes-injective, false, same_iff, true, ◌↔◌, ◌≡◌}
use qarunner.Prelude.Sorting.Laws.{IsOrder}
use qarunner.Evidence.Ordering.Canonical.{codes_le-IsOrder}
use qarunner.Finalization.Keys.{RunItemKey, key_eq, key_le}

pub key_eq_iff : (a b : RunItemKey) → (key_eq a b ≡ true) ↔ (a ≡ b)
unfolding key_eq
key_eq_iff a b = ground (arith, same_iff a.manifest_id b.manifest_id)

pub key_eq_sym : (a b : RunItemKey) → key_eq a b ≡ key_eq b a
key_eq_sym a b = ground (arith, key_eq_iff a b, key_eq_iff b a)

key_le_total : (a b : RunItemKey) → key_le a b ≡ false → key_le b a ≡ true
unfolding key_le
key_le_total a b h = ground (
  arith,
  same_iff a.manifest_id b.manifest_id,
  same_iff b.manifest_id a.manifest_id,
  codes_le-IsOrder.total (codes a.manifest_id) (codes b.manifest_id),
)

key_le_antisym : (a b : RunItemKey) → key_le a b ≡ true → key_le b a ≡ true → a ≡ b
unfolding key_le
key_le_antisym a b h k = ground (
  arith,
  same_iff a.manifest_id b.manifest_id,
  same_iff b.manifest_id a.manifest_id,
  codes_le-IsOrder.antisym (codes a.manifest_id) (codes b.manifest_id),
  codes-injective a.manifest_id b.manifest_id,
)

key_le_trans : (a b c : RunItemKey) → key_le a b ≡ true → key_le b c ≡ true → key_le a c ≡ true
unfolding key_le
key_le_trans a b c h k = ground (
  arith,
  same_iff a.manifest_id b.manifest_id,
  same_iff b.manifest_id c.manifest_id,
  same_iff a.manifest_id c.manifest_id,
  codes_le-IsOrder.trans (codes a.manifest_id) (codes b.manifest_id) (codes c.manifest_id),
  codes_le-IsOrder.antisym (codes a.manifest_id) (codes b.manifest_id),
  codes-injective a.manifest_id b.manifest_id,
)

pub key_le-IsOrder : IsOrder key_le
key_le-IsOrder = record { total = key_le_total; antisym = key_le_antisym; trans = key_le_trans }
