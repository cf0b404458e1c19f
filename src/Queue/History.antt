-- ===== src/Queue/History.antt =====
-- What any sequence of accepted calls keeps of the queue.
use qarunner.Prelude.{List, Option, String, [], arith, length, ok, raised, refl, ℕ, ◌≡◌, ◌≤◌}
use qarunner.Values.{Command}
use qarunner.Queue.{
  BoundedQueue, DequeueItem, EnqueueReceipt, Limit, QueueClass, QueueItem, background, dequeue,
  enqueue, find_limit, interactive, items_for, max_depth_for, post_init, scheduled,
}
use qarunner.Queue.Admission.{IsValid, post_init-IsValid}
use qarunner.Queue.Bounds.{IsBounded, Within, dequeue-IsBounded, enqueue-IsBounded, times_queued}

pub data Reach (q : BoundedQueue) : BoundedQueue → Type 0 where
  here : Reach q q
  put :
      {u v : BoundedQueue}
      → Reach q u
      → (i : QueueItem) (c : QueueClass) (r : EnqueueReceipt)
      → enqueue u i.batch_id c i.enqueue_id i.enqueued_at ≡ ok (v, r)
      → Reach q v
  take :
      {u v : BoundedQueue}
      → Reach q u
      → (o : Option DequeueItem) → dequeue u ≡ ok (v, o)
      → Reach q v

Reach-IsBounded : {q v : BoundedQueue} → IsBounded q → Reach q v → IsBounded v
Reach-IsBounded b here = b
Reach-IsBounded b (put {u = u} {v = v} p i c r h) =
    enqueue-IsBounded u v r i c (Reach-IsBounded b p) h
Reach-IsBounded b (take {u = u} {v = v} p o h) = dequeue-IsBounded u v o (Reach-IsBounded b p) h

no_items : (limit : Command ℕ) → Within limit 0
no_items (ok limit) = omega arith
no_items (raised e) = refl

abbrev pub new_queue : String → List Limit → BoundedQueue
new_queue id limits = record {
  queue_id = id;
  max_depth_by_class = limits;
  items_interactive = [];
  items_scheduled = [];
  items_background = [];
}

no_items-Within :
    (id : String) (limits : List Limit) (c : QueueClass)
    → Within (max_depth_for (new_queue id limits) c) (length (items_for (new_queue id limits) c))
no_items-Within id limits interactive = no_items (find_limit interactive limits)
no_items-Within id limits scheduled = no_items (find_limit scheduled limits)
no_items-Within id limits background = no_items (find_limit background limits)

new_queue-IsBounded :
    (id : String) (limits : List Limit)
    → IsValid (new_queue id limits)
    → IsBounded (new_queue id limits)
new_queue-IsBounded id limits valid = record {
  valid = valid;
  within = no_items-Within id limits;
  once = λ id. omega arith;
}

-- Whatever calls are accepted on a new queue, in any order, it stays valid, no class ever holds
-- more batches than its limit, a class without a limit holds none, and no id stands in the queue
-- twice.
pub post_init-Reach :
    (id : String) (limits : List Limit) (q v : BoundedQueue)
    → post_init (new_queue id limits) ≡ ok q
    → Reach q v
    → IsValid v
      × ((c : QueueClass) → Within (max_depth_for v c) (length (items_for v c)))
      × ((e : String) → times_queued v e ≤ 1)
post_init-Reach id limits q v h p =
    let (e, valid) = post_init-IsValid (new_queue id limits) q h in
    let fresh = new_queue-IsBounded id limits valid in
    let b = Reach-IsBounded (rw (← e) at fresh) p in (b.valid, b.within, b.once)
