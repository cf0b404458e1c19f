-- ===== src/Budget.antt =====
-- domain/resource_profile.py: resource vectors, profiles, the host budget, and the admission of a
-- set of shards.
pub mod Admission
mod Examples
use qarunner.Prelude.{
  Bool, List, Option, String, [], any, false, if◌then◌else◌, is_blank, is_empty, leb, length, ltb,
  none, not, ok, raise_if, raised, same, some, ℕ, ◌*◌, ◌+◌, ◌==◌, ◌>>=◌, ◌>>◌, ◌||◌, ◌∷◌,
}
use qarunner.Values.{Command, DomainError, invalid}

pub data ShardBudgetDecisionKind : Type 0 where
  admitted : ShardBudgetDecisionKind
  clamped : ShardBudgetDecisionKind
  infeasible : ShardBudgetDecisionKind

-- The names of `_DIMENSIONS`, in their order.
pub data Dimension : Type 0 where
  cpu_millis : Dimension
  memory_bytes : Dimension
  pid_slots : Dimension
  ephemeral_storage_bytes : Dimension
  browser_slots : Dimension

pub record ResourceVector : Type 0 where
  pub cpu_millis : ℕ
  pub memory_bytes : ℕ
  pub pid_slots : ℕ
  pub ephemeral_storage_bytes : ℕ
  pub browser_slots : ℕ

-- `getattr(vector, name)`.
abbrev pub getattr : ResourceVector → Dimension → ℕ
getattr v Dimension.cpu_millis = v.cpu_millis
getattr v Dimension.memory_bytes = v.memory_bytes
getattr v Dimension.pid_slots = v.pid_slots
getattr v Dimension.ephemeral_storage_bytes = v.ephemeral_storage_bytes
getattr v Dimension.browser_slots = v.browser_slots

abbrev pub dimensions : List Dimension
dimensions =
    Dimension.cpu_millis ∷ Dimension.memory_bytes ∷ Dimension.pid_slots
    ∷ Dimension.ephemeral_storage_bytes ∷ Dimension.browser_slots ∷ []

unfoldable pub scaled_by : ResourceVector → ℕ → Command ResourceVector
scaled_by v factor = do
  raise_if (factor == 0) (invalid "resource_vector" "factor" "not_positive")
  ok (record {
    cpu_millis = v.cpu_millis * factor;
    memory_bytes = v.memory_bytes * factor;
    pid_slots = v.pid_slots * factor;
    ephemeral_storage_bytes = v.ephemeral_storage_bytes * factor;
    browser_slots = v.browser_slots * factor;
  })

abbrev pub added : ResourceVector → ResourceVector → ResourceVector
added v w = record {
  cpu_millis = v.cpu_millis + w.cpu_millis;
  memory_bytes = v.memory_bytes + w.memory_bytes;
  pid_slots = v.pid_slots + w.pid_slots;
  ephemeral_storage_bytes = v.ephemeral_storage_bytes + w.ephemeral_storage_bytes;
  browser_slots = v.browser_slots + w.browser_slots;
}

abbrev is_zero : ResourceVector → Bool
is_zero v = not (any (λ d. not (getattr v d == 0)) dimensions)

abbrev pub fits_within : ResourceVector → ResourceVector → Bool
fits_within v capacity = not (any (λ d. not (leb (getattr v d) (getattr capacity d))) dimensions)

-- The loop of `first_exceeding_dimension`.
abbrev pub first_exceeding : List Dimension → ResourceVector → ResourceVector → Option Dimension
first_exceeding [] v capacity = none
first_exceeding (d ∷ ds) v capacity =
    if ltb (getattr capacity d) (getattr v d) then some d else first_exceeding ds v capacity

abbrev pub first_exceeding_dimension : ResourceVector → ResourceVector → Option Dimension
first_exceeding_dimension v capacity = first_exceeding dimensions v capacity

pub record ResourceProfileSpec : Type 0 where
  pub profile_id : String
  pub name : String
  pub profile_version : ℕ
  pub framework : String
  pub requests : ResourceVector
  pub limits : ResourceVector
  pub internal_workers : ℕ
  pub security_profile_id : String

abbrev bad : String → String → DomainError
bad = invalid "resource_profile_spec"

abbrev below_requests : Dimension → String
below_requests Dimension.cpu_millis = "below_requests:cpu_millis"
below_requests Dimension.memory_bytes = "below_requests:memory_bytes"
below_requests Dimension.pid_slots = "below_requests:pid_slots"
below_requests Dimension.ephemeral_storage_bytes = "below_requests:ephemeral_storage_bytes"
below_requests Dimension.browser_slots = "below_requests:browser_slots"

limits_check : Option Dimension → Command (Unit {0})
limits_check none = ok tt
limits_check (some d) = raised (bad "limits" (below_requests d))

-- `ResourceProfileSpec.__post_init__`.
pub spec_post_init : ResourceProfileSpec → Command ResourceProfileSpec
unfolding limits_check
spec_post_init p = do
  raise_if (is_blank p.profile_id) (bad "profile_id" "invalid")
  raise_if (is_blank p.name) (bad "name" "invalid")
  raise_if (is_blank p.framework) (bad "framework" "invalid")
  raise_if (is_blank p.security_profile_id) (bad "security_profile_id" "invalid")
  raise_if (p.profile_version == 0) (bad "profile_version" "not_positive")
  raise_if (p.internal_workers == 0) (bad "internal_workers" "not_positive")
  raise_if (is_zero p.requests) (bad "requests" "zero_request_oversell")
  limits_check (first_exceeding_dimension p.requests p.limits)
  ok p

pub record ShardPlanningBudget : Type 0 where
  pub target_shard_duration_ms : ℕ
  pub min_shards : ℕ
  pub max_shards : ℕ
  pub host_capacity : ResourceVector
  pub profiles : List ResourceProfileSpec

abbrev bad_budget : String → String → DomainError
bad_budget = invalid "shard_planning_budget"

abbrev repeats_profile : List ResourceProfileSpec → Bool
repeats_profile [] = false
repeats_profile (p ∷ ps) = any (λ q. same p.profile_id q.profile_id) ps || repeats_profile ps

-- `ShardPlanningBudget.__post_init__`.
pub budget_post_init : ShardPlanningBudget → Command ShardPlanningBudget
budget_post_init b = do
  raise_if (b.target_shard_duration_ms == 0) (bad_budget "target_shard_duration_ms" "not_positive")
  raise_if (b.min_shards == 0) (bad_budget "min_shards" "not_positive")
  raise_if (ltb b.max_shards b.min_shards) (bad_budget "max_shards" "below_min_shards")
  raise_if (is_empty b.profiles) (bad_budget "profiles" "empty")
  raise_if (repeats_profile b.profiles) (bad_budget "profiles" "duplicate_profile_id")
  ok b

-- The loop of `profile`.
unfoldable pub find_profile : String → List ResourceProfileSpec → Command ResourceProfileSpec
find_profile id [] = raised (bad_budget "resource_profile_id" "unknown_profile")
find_profile id (p ∷ ps) = if same p.profile_id id then ok p else find_profile id ps

-- `concurrent_reservation`.
abbrev pub concurrent_reservation : ResourceProfileSpec → Command ResourceVector
concurrent_reservation p = scaled_by p.requests p.internal_workers

pub record ShardBudgetDecision : Type 0 where
  pub kind : ShardBudgetDecisionKind
  pub desired_shard_count : ℕ
  pub allowed_shard_count : ℕ
  pub limiting_dimension : Option Dimension
  pub reason : Option String

-- The loop that adds up the reservations.
pub reserve : ShardPlanningBudget → List String → ResourceVector → Command ResourceVector
reserve b [] total = ok total
reserve b (id ∷ ids) total = do
  profile ← find_profile id b.profiles
  cost ← concurrent_reservation profile
  reserve b ids (added total cost)

abbrev pub zero_vector : ResourceVector
zero_vector = record {
  cpu_millis = 0;
  memory_bytes = 0;
  pid_slots = 0;
  ephemeral_storage_bytes = 0;
  browser_slots = 0;
}

abbrev pub decision : ShardPlanningBudget → ℕ → ResourceVector → ShardBudgetDecision
decision b desired total =
    if fits_within total b.host_capacity
    then record {
      kind = admitted;
      desired_shard_count = desired;
      allowed_shard_count = desired;
      limiting_dimension = none;
      reason = none;
    }
    else record {
      kind = infeasible;
      desired_shard_count = desired;
      allowed_shard_count = 0;
      limiting_dimension = first_exceeding_dimension total b.host_capacity;
      reason = some "oversell";
    }

pub admit_concurrent_shards : ShardPlanningBudget → List String → Command ShardBudgetDecision
unfolding reserve
admit_concurrent_shards b ids = do
  raise_if (is_empty ids) (bad_budget "shard_profile_ids" "empty")
  raise_if (any (λ id. is_blank id) ids) (bad_budget "shard_profile_ids" "invalid_entry")
  total ← reserve b ids zero_vector
  ok (decision b (length ids) total)
