-- ===== src/Queue/Bounds.antt =====
-- The bounds that each call keeps: the limits of the classes, and no id twice.
use qarunner.Prelude.{
  List, Option, String, [], arith, false, if◌then◌else◌, length, ok, raised, refl, same, same_iff,
  suc, ℕ, ◌++◌, ◌+◌, ◌>>=◌, ◌∷◌, ◌≡◌, ◌≤◌,
}
use qarunner.Values.{Command}
use qarunner.Queue.{
  BoundedQueue, DequeueItem, EnqueueReceipt, QueueClass, QueueItem, background, dequeue,
  dequeue_first, enqueue, holds_id, interactive, items_for, max_depth_for, queued_id, replaced,
  scheduled, with_items,
}
use qarunner.Queue.Admission.{
  IsValid, Room, enqueue_iff, entered, replaced-IsValid, with_items-replaced,
}

-- How often an id stands in a list.
abbrev pub times : String → List QueueItem → ℕ
times id [] = 0
times id (i ∷ is) = let rest = times id is in if same i.enqueue_id id then suc rest else rest

abbrev pub times_queued : BoundedQueue → String → ℕ
times_queued q id =
    times id q.items_interactive + times id q.items_scheduled + times id q.items_background

times-append :
    (id : String) (xs : List QueueItem) (i : QueueItem)
    → times id (xs ++ i ∷ []) ≡ times id xs + times id (i ∷ [])
times-append id [] i = omega arith
times-append id (x ∷ xs) i = ground (arith, times-append id xs i)

times-holds_id : (id : String) (xs : List QueueItem) → holds_id id xs ≡ false → times id xs ≡ 0
times-holds_id id [] h = refl
times-holds_id id (x ∷ xs) h = ground (arith, times-holds_id id xs)

length-snoc : (xs : List QueueItem) (i : QueueItem) → length (xs ++ i ∷ []) ≡ length xs + 1
length-snoc [] i = omega arith
length-snoc (x ∷ xs) i = omega (arith, length-snoc xs i)

-- A class holds no more than its limit.
abbrev pub Within : Command ℕ → ℕ → Type 0
Within (ok limit) depth = depth ≤ limit
Within (raised e) depth = depth ≡ 0

pub record IsBounded (q : BoundedQueue) : Type 0 where
  pub valid : IsValid q
  pub within : (c : QueueClass) → Within (max_depth_for q c) (length (items_for q c))
  pub once : (id : String) → times_queued q id ≤ 1

Within-suc : (limit : Command ℕ) (depth : ℕ) → Room limit depth → Within limit (depth + 1)
Within-suc (ok limit) depth h = omega arith
Within-suc (raised e) depth h = omega arith

Within-le : (limit : Command ℕ) (m n : ℕ) → Within limit n → m ≤ n → Within limit m
Within-le (ok limit) m n h k = omega arith
Within-le (raised e) m n h k = omega arith

entered-Within :
    (q : BoundedQueue) (i : QueueItem) (c d : QueueClass)
    → IsBounded q
    → Room (max_depth_for q c) (length (items_for q c))
    → Within (max_depth_for (entered q c i) d) (length (items_for (entered q c i) d))
entered-Within q i interactive interactive b room =
    rw (length-snoc q.items_interactive i)
      (Within-suc (max_depth_for q interactive) (length q.items_interactive) room)
entered-Within q i interactive scheduled b room = b.within scheduled
entered-Within q i interactive background b room = b.within background
entered-Within q i scheduled interactive b room = b.within interactive
entered-Within q i scheduled scheduled b room =
    rw (length-snoc q.items_scheduled i)
      (Within-suc (max_depth_for q scheduled) (length q.items_scheduled) room)
entered-Within q i scheduled background b room = b.within background
entered-Within q i background interactive b room = b.within interactive
entered-Within q i background scheduled b room = b.within scheduled
entered-Within q i background background b room =
    rw (length-snoc q.items_background i)
      (Within-suc (max_depth_for q background) (length q.items_background) room)

-- A new id stands nowhere, so any id stands once at most when it is counted in.
times_queued-new :
    (q : BoundedQueue) (i : QueueItem) (id : String)
    → IsBounded q
    → queued_id q i.enqueue_id ≡ false
    → times_queued q id + times id (i ∷ []) ≤ 1
times_queued-new q i id b new = ground (
  arith,
  same_iff i.enqueue_id id,
  b.once id,
  times-holds_id i.enqueue_id q.items_interactive,
  times-holds_id i.enqueue_id q.items_scheduled,
  times-holds_id i.enqueue_id q.items_background,
)

entered-once :
    (q : BoundedQueue) (i : QueueItem) (c : QueueClass) (id : String)
    → IsBounded q
    → queued_id q i.enqueue_id ≡ false
    → times_queued (entered q c i) id ≤ 1
entered-once q i interactive id b new =
    omega (arith, times-append id q.items_interactive i, times_queued-new q i id b new)
entered-once q i scheduled id b new =
    omega (arith, times-append id q.items_scheduled i, times_queued-new q i id b new)
entered-once q i background id b new =
    omega (arith, times-append id q.items_background i, times_queued-new q i id b new)

pub enqueue-IsBounded :
    (q v : BoundedQueue) (r : EnqueueReceipt) (i : QueueItem) (c : QueueClass)
    → IsBounded q
    → enqueue q i.batch_id c i.enqueue_id i.enqueued_at ≡ ok (v, r)
    → IsBounded v
enqueue-IsBounded q v r i c b h =
    let (p, p', p'', new, room, e, e') = (enqueue_iff q v r i c b.valid).0 h in
    let done : IsBounded (entered q c i) = record {
      valid = replaced-IsValid q c (items_for q c ++ i ∷ []) b.valid;
      within = λ d. entered-Within q i c d b room;
      once = λ id. entered-once q i c id b new;
    } in
    rw (← e) at done

shorter :
    (ys : List QueueItem) (x : QueueItem) (xs : List QueueItem)
    → ys ≡ x ∷ xs
    → length xs ≤ length ys
shorter ys x xs h = rw h (omega arith)

times-shorter :
    (id : String) (ys : List QueueItem) (x : QueueItem) (xs : List QueueItem)
    → ys ≡ x ∷ xs
    → times id xs ≤ times id ys
times-shorter id ys x xs h = rw h (ground arith)

left-Within :
    (q : BoundedQueue) (c d : QueueClass) (x : QueueItem) (xs : List QueueItem)
    → IsBounded q
    → items_for q c ≡ x ∷ xs
    → Within (max_depth_for (replaced q c xs) d) (length (items_for (replaced q c xs) d))
left-Within q interactive interactive x xs b h =
    Within-le (max_depth_for q interactive) (length xs) (length q.items_interactive)
      (b.within interactive) (shorter q.items_interactive x xs h)
left-Within q interactive scheduled x xs b h = b.within scheduled
left-Within q interactive background x xs b h = b.within background
left-Within q scheduled interactive x xs b h = b.within interactive
left-Within q scheduled scheduled x xs b h =
    Within-le (max_depth_for q scheduled) (length xs) (length q.items_scheduled)
      (b.within scheduled) (shorter q.items_scheduled x xs h)
left-Within q scheduled background x xs b h = b.within background
left-Within q background interactive x xs b h = b.within interactive
left-Within q background scheduled x xs b h = b.within scheduled
left-Within q background background x xs b h =
    Within-le (max_depth_for q background) (length xs) (length q.items_background)
      (b.within background) (shorter q.items_background x xs h)

left-once :
    (q : BoundedQueue) (c : QueueClass) (id : String) (x : QueueItem) (xs : List QueueItem)
    → IsBounded q
    → items_for q c ≡ x ∷ xs
    → times_queued (replaced q c xs) id ≤ 1
left-once q interactive id x xs b h =
    omega (arith, b.once id, times-shorter id q.items_interactive x xs h)
left-once q scheduled id x xs b h =
    omega (arith, b.once id, times-shorter id q.items_scheduled x xs h)
left-once q background id x xs b h =
    omega (arith, b.once id, times-shorter id q.items_background x xs h)

-- Taking the first item of a class leaves the bounds.
left-IsBounded :
    (q v : BoundedQueue) (c : QueueClass) (x : QueueItem) (xs : List QueueItem)
    (o o' : Option DequeueItem)
    → IsBounded q
    → items_for q c ≡ x ∷ xs
    → ◌>>=◌ {B = BoundedQueue × Option DequeueItem} (with_items q c xs) (λ next. ok (next, o'))
      ≡ ok (v, o)
    → IsBounded v
left-IsBounded q v c x xs o o' b h g =
    let e = with_items-replaced q c xs b.valid in
    let done : IsBounded (replaced q c xs) = record {
      valid = replaced-IsValid q c xs b.valid;
      within = λ d. left-Within q c d x xs b h;
      once = λ id. left-once q c id x xs b h;
    } in
    let same_queue : v ≡ replaced q c xs = ground (arith, e, g) in rw (← same_queue) at done

dequeue_first-IsBounded :
    (q v : BoundedQueue) (o : Option DequeueItem) (xs ys zs : List QueueItem)
    → IsBounded q
    → q.items_interactive ≡ xs
    → q.items_scheduled ≡ ys
    → q.items_background ≡ zs
    → dequeue_first q xs ys zs ≡ ok (v, o)
    → IsBounded v
unfolding dequeue_first
dequeue_first-IsBounded q v o (x ∷ xs) ys zs b hx hy hz h =
    left-IsBounded q v interactive x xs o _ b hx h
dequeue_first-IsBounded q v o [] (y ∷ ys) zs b hx hy hz h =
    left-IsBounded q v scheduled y ys o _ b hy h
dequeue_first-IsBounded q v o [] [] (z ∷ zs) b hx hy hz h =
    left-IsBounded q v background z zs o _ b hz h
dequeue_first-IsBounded q v o [] [] [] b hx hy hz h = ground (arith, h)

pub dequeue-IsBounded :
    (q v : BoundedQueue) (o : Option DequeueItem)
    → IsBounded q
    → dequeue q ≡ ok (v, o)
    → IsBounded v
unfolding dequeue
dequeue-IsBounded q v o b h =
    dequeue_first-IsBounded q v o q.items_interactive q.items_scheduled q.items_background b refl
      refl refl h
