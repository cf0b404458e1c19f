-- ===== src/Finalization/Keys.antt =====
-- `RunItemKey`: its check and its order, which is that of the dataclass: by manifest, whose order is
-- that of the code points, then by index.
pub mod Order
use qarunner.Prelude.{
  Bool, String, codes, is_blank, leb, not, ok, raise_if, same, ℕ, ◌&&◌, ◌==◌, ◌>>◌, ◌||◌,
}
use qarunner.Values.{Command, invalid}
use qarunner.Evidence.Ordering.{codes_le}

pub record RunItemKey : Type 0 where
  pub manifest_id : String
  pub item_index : ℕ

unfoldable pub key_post_init : RunItemKey → Command RunItemKey
key_post_init k = do
  raise_if (is_blank k.manifest_id) (invalid "run_item_key" "manifest_id" "invalid")
  ok k

unfoldable pub key_eq : RunItemKey → RunItemKey → Bool
key_eq a b = same a.manifest_id b.manifest_id && a.item_index == b.item_index

-- `a <= b`.
unfoldable pub key_le : RunItemKey → RunItemKey → Bool
unfolding codes_le
key_le a b =
    not (same a.manifest_id b.manifest_id) && codes_le (codes a.manifest_id) (codes b.manifest_id)
    || same a.manifest_id b.manifest_id && leb a.item_index b.item_index
