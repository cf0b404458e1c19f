-- ===== src/Queue/Priority.antt =====
-- The order in which batches leave the queue.
use qarunner.Prelude.{List, Option, [], map, none, ok, some, ◌++◌, ◌∷◌, ◌≡◌}
use qarunner.Queue.{
  BoundedQueue, DequeueItem, QueueItem, background, interactive, item_of, scheduled,
}
use qarunner.Queue.Admission.{IsValid}
use qarunner.Values.{Command}

-- The queue as one line: the classes in their priority, each in its order of arrival.
abbrev pub line : List QueueItem → List QueueItem → List QueueItem → List DequeueItem
line xs ys zs =
    map (item_of interactive) xs ++ map (item_of scheduled) ys ++ map (item_of background) zs

abbrev pub waiting : BoundedQueue → List DequeueItem
waiting q = line q.items_interactive q.items_scheduled q.items_background

abbrev pub front : List DequeueItem → Option DequeueItem
front [] = none
front (x ∷ xs) = some x

abbrev pub behind : List DequeueItem → List DequeueItem
behind [] = []
behind (x ∷ xs) = xs

-- What leaving gives: the queue after it, and the line that is left.
record Leaves (q : BoundedQueue) (l : List DequeueItem)
    (c : Command (BoundedQueue × Option DequeueItem)) : Type 0 where
  after : BoundedQueue
  gives : c ≡ ok (after, front l)
  moves_up : waiting after ≡ behind l
  valid : IsValid after
