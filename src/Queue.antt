-- ===== src/Queue.antt =====
-- domain/bounded_queue.py: the bounded queue of batches, by priority class.
pub mod Priority
pub mod Admission
pub mod Bounds
pub mod History
mod Examples
use qarunner.Prelude.{
  Bool, List, Option, String, [], any, false, if◌then◌else◌, is_blank, is_empty, leb, length, none,
  ok, raise_if, raised, same, some, true, ℕ, ◌++◌, ◌+◌, ◌==◌, ◌>>=◌, ◌>>◌, ◌||◌, ◌∷◌,
}
use qarunner.Values.{Command, DateTime, DomainError, invalid, queue_overflow, require_utc}

pub data QueueClass : Type 0 where
  interactive : QueueClass
  scheduled : QueueClass
  background : QueueClass

abbrev class_value : QueueClass → String
class_value interactive = "interactive"
class_value scheduled = "scheduled"
class_value background = "background"

-- One stored tuple; its time stands for the ISO text.
pub record QueueItem : Type 0 where
  pub batch_id : String
  pub enqueued_at : DateTime
  pub enqueue_id : String

-- One pair of `max_depth_by_class`.
pub record Limit : Type 0 where
  pub queue_class : QueueClass
  pub max_depth : ℕ

pub record EnqueueReceipt : Type 0 where
  pub enqueue_id : String
  pub batch_id : String
  pub queue_class : QueueClass
  pub depth_at_enqueue : ℕ

pub record DequeueItem : Type 0 where
  pub batch_id : String
  pub queue_class : QueueClass
  pub enqueue_id : String

pub record BoundedQueue : Type 0 where
  pub queue_id : String
  pub max_depth_by_class : List Limit
  pub items_interactive : List QueueItem
  pub items_scheduled : List QueueItem
  pub items_background : List QueueItem

abbrev bad : String → String → DomainError
bad = invalid "bounded_queue"

abbrev pub same_class : QueueClass → QueueClass → Bool
same_class interactive interactive = true
same_class scheduled scheduled = true
same_class background background = true
same_class _ _ = false

-- The loop over `max_depth_by_class`, with the classes seen so far.
pub limits_check : List QueueClass → List Limit → Command (Unit {0})
limits_check seen [] = ok tt
limits_check seen (l ∷ ls) = do
  raise_if (any (same_class l.queue_class) seen) (bad "max_depth_by_class" "duplicate")
  raise_if (l.max_depth == 0) (bad "max_depth" "not_positive")
  limits_check (l.queue_class ∷ seen) ls

-- `__post_init__`.
unfoldable pub post_init : BoundedQueue → Command BoundedQueue
post_init q = do
  raise_if (is_blank q.queue_id) (bad "queue_id" "invalid")
  raise_if (is_empty q.max_depth_by_class) (bad "max_depth_by_class" "empty")
  limits_check [] q.max_depth_by_class
  ok q

pub find_limit : QueueClass → List Limit → Command ℕ
find_limit c [] = raised (bad "queue_class" "unknown_queue_class")
find_limit c (l ∷ ls) = if same_class l.queue_class c then ok l.max_depth else find_limit c ls

-- `max_depth_for`.
abbrev pub max_depth_for : BoundedQueue → QueueClass → Command ℕ
max_depth_for q c = find_limit c q.max_depth_by_class

-- `_items_for`.
abbrev pub items_for : BoundedQueue → QueueClass → List QueueItem
items_for q interactive = q.items_interactive
items_for q scheduled = q.items_scheduled
items_for q background = q.items_background

abbrev pub replaced : BoundedQueue → QueueClass → List QueueItem → BoundedQueue
replaced q interactive items = record q { items_interactive = items }
replaced q scheduled items = record q { items_scheduled = items }
replaced q background items = record q { items_background = items }

-- `_with_items`.
pub with_items : BoundedQueue → QueueClass → List QueueItem → Command BoundedQueue
unfolding post_init
with_items q c items = post_init (replaced q c items)

-- The loops that look for a duplicate.
abbrev pub holds_id : String → List QueueItem → Bool
holds_id id items = any (λ i. same i.enqueue_id id) items

abbrev pub queued_id : BoundedQueue → String → Bool
queued_id q id =
    holds_id id q.items_interactive
    || holds_id id q.items_scheduled
    || holds_id id q.items_background

abbrev pub receipt_of : BoundedQueue → String → QueueClass → String → EnqueueReceipt
receipt_of q batch c id = record {
  enqueue_id = id;
  batch_id = batch;
  queue_class = c;
  depth_at_enqueue = length (items_for q c) + 1;
}

pub enqueue :
    BoundedQueue
    → (batch_id : String) (queue_class : QueueClass) (enqueue_id : String) (enqueued_at : DateTime)
    → Command (BoundedQueue × EnqueueReceipt)
unfolding require_utc
enqueue q batch c id at = do
  raise_if (is_blank batch) (bad "batch_id" "invalid")
  raise_if (is_blank id) (bad "enqueue_id" "invalid")
  require_utc "bounded_queue" "enqueued_at" at
  raise_if (queued_id q id) (bad "enqueue_id" "duplicate")
  max_depth ← max_depth_for q c
  raise_if (leb max_depth (length (items_for q c)))
      (queue_overflow (class_value c) (length (items_for q c)) max_depth "max_depth_exceeded")
  next ←
      with_items q c
        (items_for q c ++ record { batch_id = batch; enqueued_at = at; enqueue_id = id } ∷ [])
  ok (next, receipt_of q batch c id)

abbrev pub item_of : QueueClass → QueueItem → DequeueItem
item_of c i = record { batch_id = i.batch_id; queue_class = c; enqueue_id = i.enqueue_id }

-- The loop over `_DEQUEUE_PRIORITY`, on the items of its classes.
pub dequeue_first :
    BoundedQueue
    → List QueueItem
    → List QueueItem
    → List QueueItem
    → Command (BoundedQueue × Option DequeueItem)
unfolding with_items
dequeue_first q (i ∷ rest) ss bs = do
  next ← with_items q interactive rest
  ok (next, some (item_of interactive i))
dequeue_first q [] (i ∷ rest) bs = do
  next ← with_items q scheduled rest
  ok (next, some (item_of scheduled i))
dequeue_first q [] [] (i ∷ rest) = do
  next ← with_items q background rest
  ok (next, some (item_of background i))
dequeue_first q [] [] [] = ok (q, none)

pub dequeue : BoundedQueue → Command (BoundedQueue × Option DequeueItem)
unfolding dequeue_first
dequeue q = dequeue_first q q.items_interactive q.items_scheduled q.items_background
