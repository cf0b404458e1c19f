-- ===== src/Budget/Admission.antt =====
-- When a set of shards is admitted.
use qarunner.Prelude.{
  >>=-eq-ok, List, Option, String, [], any, ap, arith, false, if◌then◌else◌, is_blank, is_empty,
  leb, length, ltb, none, not, ok, raise_if, raised, refl, some, true, ℕ, ◌*◌, ◌+◌, ◌<◌, ◌∷◌, ◌≡◌,
  ◌≤◌,
}
use qarunner.Values.{Command}
use qarunner.Budget.{
  Dimension, ResourceProfileSpec, ResourceVector, ShardBudgetDecision, ShardPlanningBudget, added,
  admit_concurrent_shards, admitted, concurrent_reservation, decision, dimensions, find_profile,
  first_exceeding, first_exceeding_dimension, fits_within, getattr, infeasible, reserve, scaled_by,
  zero_vector,
}

-- What one shard of a looked-up profile takes of a dimension.
abbrev pub takes : Dimension → Command ResourceProfileSpec → ℕ
takes d (ok p) = getattr p.requests d * p.internal_workers
takes d (raised e) = 0

-- What the shards take together.
abbrev pub demand : ShardPlanningBudget → Dimension → List String → ℕ
demand b d [] = 0
demand b d (id ∷ ids) = takes d (find_profile id b.profiles) + demand b d ids

getattr-added :
    (d : Dimension) (v w : ResourceVector) → getattr (added v w) d ≡ getattr v d + getattr w d
getattr-added Dimension.cpu_millis v w = refl
getattr-added Dimension.memory_bytes v w = refl
getattr-added Dimension.pid_slots v w = refl
getattr-added Dimension.ephemeral_storage_bytes v w = refl
getattr-added Dimension.browser_slots v w = refl

getattr-scaled_by :
    (d : Dimension) (v w : ResourceVector) (factor : ℕ)
    → scaled_by v factor ≡ ok w
    → getattr w d ≡ getattr v d * factor
unfolding scaled_by
getattr-scaled_by Dimension.cpu_millis v w factor h = ground (arith, h)
getattr-scaled_by Dimension.memory_bytes v w factor h = ground (arith, h)
getattr-scaled_by Dimension.pid_slots v w factor h = ground (arith, h)
getattr-scaled_by Dimension.ephemeral_storage_bytes v w factor h = ground (arith, h)
getattr-scaled_by Dimension.browser_slots v w factor h = ground (arith, h)

-- The loop's total, from any start.
reserve-demand :
    (b : ShardPlanningBudget) (d : Dimension) (ids : List String) (start total : ResourceVector)
    → reserve b ids start ≡ ok total
    → getattr total d ≡ getattr start d + demand b d ids
unfolding reserve
reserve-demand b d [] start total h = ground (arith, h)
reserve-demand b d (id ∷ ids) start total h =
    let (p, found, h') = >>=-eq-ok (find_profile id b.profiles) _ h in
    let (c, cost, h'') = >>=-eq-ok (concurrent_reservation p) _ h' in
    rw found (
      omega (
        arith,
        reserve-demand b d ids (added start c) total h'',
        getattr-added d start c,
        getattr-scaled_by d p.requests c p.internal_workers cost,
      ))

-- What the loop over the dimensions finds: one that exceeds the capacity, or none.
abbrev Finds : List Dimension → ResourceVector → ResourceVector → Option Dimension → Type 0
Finds ds v capacity none = any (λ d. not (leb (getattr v d) (getattr capacity d))) ds ≡ false
Finds ds v capacity (some d) =
    (any (λ e. not (leb (getattr v e) (getattr capacity e))) ds ≡ true)
    × (getattr capacity d < getattr v d)

Finds-next :
    (d : Dimension) (ds : List Dimension) (v capacity : ResourceVector) (rest : Option Dimension)
    → Finds ds v capacity rest
    → Finds (d ∷ ds) v capacity (if ltb (getattr capacity d) (getattr v d) then some d else rest)
Finds-next d ds v capacity none h = ground (arith, h)
Finds-next d ds v capacity (some e) h = ground (arith, h)

first_exceeding-Finds :
    (ds : List Dimension) (v capacity : ResourceVector)
    → Finds ds v capacity (first_exceeding ds v capacity)
first_exceeding-Finds [] v capacity = refl
first_exceeding-Finds (d ∷ ds) v capacity =
    Finds-next d ds v capacity (first_exceeding ds v capacity) (first_exceeding-Finds ds v capacity)

fits_within-all :
    (v capacity : ResourceVector) (d : Dimension)
    → fits_within v capacity ≡ true
    → getattr v d ≤ getattr capacity d
fits_within-all v capacity Dimension.cpu_millis h = ground (arith, h)
fits_within-all v capacity Dimension.memory_bytes h = ground (arith, h)
fits_within-all v capacity Dimension.pid_slots h = ground (arith, h)
fits_within-all v capacity Dimension.ephemeral_storage_bytes h = ground (arith, h)
fits_within-all v capacity Dimension.browser_slots h = ground (arith, h)

-- The verdict on the shards, by the dimension that limits them.
abbrev pub Verdict :
    ShardPlanningBudget → List String → ShardBudgetDecision → Option Dimension → Type 0
Verdict b ids r none =
    (r.kind ≡ admitted)
    × (r.allowed_shard_count ≡ length ids)
    × ((d : Dimension) → demand b d ids ≤ getattr b.host_capacity d)
Verdict b ids r (some d) =
    (r.kind ≡ infeasible)
    × (r.allowed_shard_count ≡ 0)
    × (getattr b.host_capacity d < demand b d ids)

decision-Verdict :
    (b : ShardPlanningBudget) (ids : List String) (total : ResourceVector)
    (limit : Option Dimension)
    → ((d : Dimension) → getattr total d ≡ demand b d ids)
    → first_exceeding_dimension total b.host_capacity ≡ limit
    → Finds dimensions total b.host_capacity limit
    → ((decision b (length ids) total).desired_shard_count ≡ length ids)
      × Verdict b ids
          (decision b (length ids) total)
          (decision b (length ids) total).limiting_dimension
decision-Verdict b ids total none sums e f =
    let fits : fits_within total b.host_capacity ≡ true = ap not f in
    rw fits
      (refl, (refl, refl, λ d. omega (arith, sums d, fits_within-all total b.host_capacity d fits)))
decision-Verdict b ids total (some d) sums e f =
    let exceeds : fits_within total b.host_capacity ≡ false = ap not f.0 in
    rw (exceeds, e) (refl, (refl, refl, omega (arith, sums d, f.1)))

getattr-zero_vector : (d : Dimension) → getattr zero_vector d ≡ 0
getattr-zero_vector Dimension.cpu_millis = refl
getattr-zero_vector Dimension.memory_bytes = refl
getattr-zero_vector Dimension.pid_slots = refl
getattr-zero_vector Dimension.ephemeral_storage_bytes = refl
getattr-zero_vector Dimension.browser_slots = refl

reserve-sums :
    (b : ShardPlanningBudget) (ids : List String) (total : ResourceVector)
    → reserve b ids zero_vector ≡ ok total
    → (d : Dimension) → getattr total d ≡ demand b d ids
reserve-sums b ids total h d =
    omega (arith, reserve-demand b d ids zero_vector total h, getattr-zero_vector d)

-- A proposed set of shards is answered with all of it or none of it: either no dimension limits it,
-- it is admitted whole, and in every dimension the shards' requests, times their internal workers,
-- add up to no more than the host has; or it is infeasible, no shard is allowed, and the dimension
-- that is named is one in which they add up to more.
pub admit_concurrent_shards-Verdict :
    (b : ShardPlanningBudget) (ids : List String) (r : ShardBudgetDecision)
    → admit_concurrent_shards b ids ≡ ok r
    → (r.desired_shard_count ≡ length ids) × Verdict b ids r r.limiting_dimension
unfolding admit_concurrent_shards
admit_concurrent_shards-Verdict b ids r h =
    let (u, named, h1) = >>=-eq-ok (raise_if (is_empty ids) _) _ h in
    let (u', known, h2) = >>=-eq-ok (raise_if (any (λ id. is_blank id) ids) _) _ h1 in
    let (total, sum, h3) = >>=-eq-ok (reserve b ids zero_vector) _ h2 in
    let result : r ≡ decision b (length ids) total = ground (arith, h3) in
    let limit = first_exceeding_dimension total b.host_capacity in
    let found = first_exceeding-Finds dimensions total b.host_capacity in
    rw result (decision-Verdict b ids total limit (reserve-sums b ids total sum) refl found)

Verdict-fewer :
    (b : ShardPlanningBudget) (id : String) (ids : List String) (r s : ShardBudgetDecision)
    (l m : Option Dimension)
    → Verdict b (id ∷ ids) r l
    → Verdict b ids s m
    → r.kind ≡ admitted
    → s.kind ≡ admitted
Verdict-fewer b id ids r s l none v w e = w.0
Verdict-fewer b id ids r s none (some d) v w e = ground (arith, v.2 d, w.2)
Verdict-fewer b id ids r s (some c) (some d) v w e = ground (arith, v.0, e)

-- An admitted set of shards stays admissible when its first shard is left out: the rest, if it is
-- answered at all, is admitted.
pub admit_concurrent_shards-fewer :
    (b : ShardPlanningBudget) (id : String) (ids : List String) (r s : ShardBudgetDecision)
    → admit_concurrent_shards b (id ∷ ids) ≡ ok r
    → r.kind ≡ admitted
    → admit_concurrent_shards b ids ≡ ok s
    → s.kind ≡ admitted
admit_concurrent_shards-fewer b id ids r s h e k =
    let (p, v) = admit_concurrent_shards-Verdict b (id ∷ ids) r h in
    let (q, w) = admit_concurrent_shards-Verdict b ids s k in
    Verdict-fewer b id ids r s r.limiting_dimension s.limiting_dimension v w e
