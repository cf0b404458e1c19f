-- ===== src/Queue/Admission.antt =====
-- What the queue takes in.
use qarunner.Prelude.{
  List, [], arith, false, is_blank, is_empty, length, ok, raised, true, ℕ, ◌++◌, ◌<◌, ◌↔◌, ◌∷◌, ◌≡◌,
}
use qarunner.Values.{Command, is_utc}
use qarunner.Queue.{
  BoundedQueue, EnqueueReceipt, QueueClass, QueueItem, background, enqueue, interactive, items_for,
  limits_check, max_depth_for, post_init, queued_id, receipt_of, replaced, scheduled, with_items,
}

pub record IsValid (q : BoundedQueue) : Type 0 where
  pub named : is_blank q.queue_id ≡ false
  pub limited : is_empty q.max_depth_by_class ≡ false
  pub limits_fit : limits_check [] q.max_depth_by_class ≡ ok tt

pub post_init-IsValid : (q v : BoundedQueue) → post_init q ≡ ok v → (v ≡ q) × IsValid q
unfolding post_init
post_init-IsValid q v h = ground arith

pub replaced-IsValid :
    (q : BoundedQueue) (c : QueueClass) (items : List QueueItem)
    → IsValid q
    → IsValid (replaced q c items)
replaced-IsValid q interactive items valid = ground arith
replaced-IsValid q scheduled items valid = ground arith
replaced-IsValid q background items valid = ground arith

pub with_items-replaced :
    (q : BoundedQueue) (c : QueueClass) (items : List QueueItem)
    → IsValid q
    → with_items q c items ≡ ok (replaced q c items)
unfolding with_items post_init
with_items-replaced q interactive items valid = ground arith
with_items-replaced q scheduled items valid = ground arith
with_items-replaced q background items valid = ground arith

-- A class has a limit, and fewer items than it allows.
abbrev pub Room : Command ℕ → ℕ → Type 0
Room (ok limit) depth = depth < limit
Room (raised e) depth = depth < 0

abbrev pub entered : BoundedQueue → QueueClass → QueueItem → BoundedQueue
entered q c i = replaced q c (items_for q c ++ i ∷ [])

-- A valid queue takes a batch exactly when neither name is blank, the time is in UTC, no class
-- holds the id already, and the batch's class has room; the batch is then the last of its class,
-- the other classes are as they were, and the receipt tells the new depth.
pub enqueue_iff :
    (q v : BoundedQueue) (r : EnqueueReceipt) (i : QueueItem) (c : QueueClass)
    → IsValid q
    → (enqueue q i.batch_id c i.enqueue_id i.enqueued_at ≡ ok (v, r)) ↔ (
        (is_blank i.batch_id ≡ false)
        × (is_blank i.enqueue_id ≡ false)
        × (is_utc i.enqueued_at ≡ true)
        × (queued_id q i.enqueue_id ≡ false)
        × Room (max_depth_for q c) (length (items_for q c))
        × (v ≡ entered q c i)
        × (r ≡ receipt_of q i.batch_id c i.enqueue_id))
unfolding enqueue
enqueue_iff q v r i c valid =
    ground (arith, with_items-replaced q c (items_for q c ++ i ∷ []) valid)
