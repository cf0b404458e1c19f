-- ===== src/Queue/Examples.antt =====
-- A queue that takes two batches and gives the more urgent one first; the theorems at it.
use qarunner.Prelude.{List, String, [], is_blank, length, ok, raised, refl, some, ◌∷◌, ◌≡◌, ◌≤◌}
use qarunner.Values.{queue_overflow, require_utc, utc}
use qarunner.Queue.{
  BoundedQueue, Limit, QueueClass, QueueItem, background, dequeue, dequeue_first, enqueue,
  find_limit, interactive, items_for, limits_check, max_depth_for, post_init, receipt_of,
  with_items,
}
use qarunner.Queue.Admission.{IsValid, entered}
use qarunner.Queue.Bounds.{Within, times_queued}
use qarunner.Queue.History.{Reach, here, new_queue, post_init-Reach, put, take}

abbrev limits : List Limit
limits =
    record { queue_class = interactive; max_depth = 1 }
    ∷ record { queue_class = background; max_depth = 3 }
    ∷ []

abbrev idle : BoundedQueue
idle = new_queue "q1" limits

abbrev nightly : QueueItem
nightly = record { batch_id = "nightly"; enqueued_at = utc 10; enqueue_id = "e1" }

abbrev urgent : QueueItem
urgent = record { batch_id = "urgent"; enqueued_at = utc 20; enqueue_id = "e2" }

abbrev one : BoundedQueue
one = entered idle background nightly

abbrev two : BoundedQueue
two = entered one interactive urgent

program : Unit {0}
unfolding post_init limits_check is_blank enqueue require_utc find_limit with_items dequeue
    dequeue_first
program = tt

idle-made : post_init idle ≡ ok idle
unfolding program
idle-made = refl

full :
    enqueue two "late" interactive "e3" (utc 30)
    ≡ raised (queue_overflow "interactive" 1 1 "max_depth_exceeded")
unfolding program
full = refl

idle-Reach : Reach idle one
unfolding program
idle-Reach =
    take
      (put (put here nightly background (receipt_of idle "nightly" background "e1") refl) urgent
        interactive (receipt_of one "urgent" interactive "e2") refl)
      (some (record { batch_id = "urgent"; queue_class = interactive; enqueue_id = "e2" })) refl

post_init-Reach_example :
    IsValid one
    × ((c : QueueClass) → Within (max_depth_for one c) (length (items_for one c)))
    × ((e : String) → times_queued one e ≤ 1)
post_init-Reach_example = post_init-Reach "q1" limits idle one idle-made idle-Reach
