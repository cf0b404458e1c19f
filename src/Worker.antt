-- ===== src/Worker.antt =====
-- domain/worker.py: one Worker generation, its state edges and the commands on it. A command
-- returns the new generation or the exception; `replace` runs `post_init` on what it builds.
pub mod Validity
pub mod Commands
pub mod History
mod Examples
use qarunner.Prelude.{
  Bool, Option, String, differ, false, if◌then◌else◌, is_blank, is_some, ltb, negsuc, none, not, ok,
  pos, raise_if, raised, some, true, ℕ, ℤ, ◌+◌, ◌>>=◌, ◌>>◌,
}
use qarunner.Values.{
  Command, DateTime, Digest, DomainError, WorkerAuthority, WorkerRef, before,
  ensure_expected_version, generation_conflict, invalid, invalid_transition, not_claimable, ref_eq,
  require_utc, same_time,
}

pub data WorkerState : Type 0 where
  registering : WorkerState
  ready : WorkerState
  busy : WorkerState
  draining : WorkerState
  quarantined : WorkerState
  offline : WorkerState
  retired : WorkerState

abbrev pub state_value : WorkerState → String
state_value registering = "registering"
state_value ready = "ready"
state_value busy = "busy"
state_value draining = "draining"
state_value quarantined = "quarantined"
state_value offline = "offline"
state_value retired = "retired"

-- `target in WORKER_TRANSITIONS[state]`.
abbrev pub worker_transitions : WorkerState → WorkerState → Bool
worker_transitions registering ready = true
worker_transitions registering quarantined = true
worker_transitions ready draining = true
worker_transitions ready offline = true
worker_transitions ready quarantined = true
worker_transitions busy draining = true
worker_transitions busy offline = true
worker_transitions busy quarantined = true
worker_transitions draining retired = true
worker_transitions draining offline = true
worker_transitions draining quarantined = true
worker_transitions offline quarantined = true
worker_transitions quarantined retired = true
worker_transitions _ _ = false

abbrev pub is_retired : WorkerState → Bool
is_retired retired = true
is_retired _ = false

abbrev is_ready : WorkerState → Bool
is_ready ready = true
is_ready _ = false

abbrev is_offline : WorkerState → Bool
is_offline offline = true
is_offline _ = false

-- `state in {READY, BUSY}`.
abbrev pub may_claim : WorkerState → Bool
may_claim ready = true
may_claim busy = true
may_claim _ = false

pub record ReconcileWorkerFacts : Type 0 where
  pub active_assignments : ℕ
  pub drain_requested : Bool

-- The constructor; a count below 0 is refused.
facts_of : ℤ → Bool → Command ReconcileWorkerFacts
facts_of (pos n) drain = ok (record { active_assignments = n; drain_requested = drain })
facts_of (negsuc n) drain =
    raised (invalid "reconcile_worker_facts" "active_assignments" "negative")

pub record WorkerGeneration : Type 0 where
  pub ref : WorkerRef
  pub host_id : String
  pub pool_id : String
  pub cert_serial : String
  pub agent_version : String
  pub capabilities_digest : Digest
  pub state : WorkerState
  pub registered_at : DateTime
  pub state_changed_at : DateTime
  pub last_seen_at : Option DateTime
  pub retired_at : Option DateTime
  pub version : ℕ

abbrev entity : String
entity = "worker_generation"

ensure_utc : String → DateTime → Command (Unit {0})
unfolding require_utc
ensure_utc = require_utc entity

check_last_seen : WorkerGeneration → Option DateTime → Command (Unit {0})
unfolding ensure_utc
check_last_seen w none = ok tt
check_last_seen w (some seen) = do
  ensure_utc "last_seen_at" seen
  raise_if (before seen w.registered_at) (invalid entity "last_seen_at" "before_registration")

check_retired : WorkerGeneration → Option DateTime → Command (Unit {0})
unfolding ensure_utc
check_retired w none = ok tt
check_retired w (some at) = do
  ensure_utc "retired_at" at
  raise_if (not (same_time at w.state_changed_at))
      (invalid entity "retired_at" "must_equal_state_changed_at")

-- `__post_init__`.
pub post_init : WorkerGeneration → Command WorkerGeneration
unfolding ensure_utc check_last_seen check_retired
post_init w = do
  raise_if (is_blank w.host_id) (invalid entity "host_id" "empty_value")
  raise_if (is_blank w.pool_id) (invalid entity "pool_id" "empty_value")
  raise_if (is_blank w.cert_serial) (invalid entity "cert_serial" "empty_value")
  raise_if (is_blank w.agent_version) (invalid entity "agent_version" "empty_value")
  ensure_utc "registered_at" w.registered_at
  ensure_utc "state_changed_at" w.state_changed_at
  raise_if (before w.state_changed_at w.registered_at)
      (invalid entity "state_changed_at" "before_registration")
  check_last_seen w w.last_seen_at
  check_retired w w.retired_at
  raise_if (differ (is_retired w.state) (is_some w.retired_at))
      (invalid entity "retired_at" "must_match_retired_state")
  ok w

pub register :
    (ref : WorkerRef) (host_id pool_id cert_serial agent_version : String) (capabilities : Digest)
    (registered_at : DateTime)
    → Command WorkerGeneration
register ref host_id pool_id cert_serial agent_version capabilities registered_at =
    post_init (record {
      ref = ref;
      host_id = host_id;
      pool_id = pool_id;
      cert_serial = cert_serial;
      agent_version = agent_version;
      capabilities_digest = capabilities;
      state = registering;
      registered_at = registered_at;
      state_changed_at = registered_at;
      last_seen_at = none;
      retired_at = none;
      version = 0;
    })

ensure_authority : WorkerGeneration → WorkerAuthority → Command (Unit {0})
ensure_authority w authority =
    raise_if (not (ref_eq w.ref authority.current_ref))
      (generation_conflict authority.current_ref w.ref "generation_not_current")

ensure_event_time : WorkerGeneration → String → DateTime → Command (Unit {0})
unfolding ensure_utc
ensure_event_time w field value = do
  ensure_utc field value
  raise_if (before value w.state_changed_at) (invalid entity field "before_current_state")

-- `self.last_seen_at is not None and value < self.last_seen_at`.
abbrev before_seen : DateTime → Option DateTime → Bool
before_seen value none = false
before_seen value (some seen) = before value seen

ensure_observation_time : WorkerGeneration → String → DateTime → Command (Unit {0})
unfolding ensure_event_time
ensure_observation_time w field value = do
  ensure_event_time w field value
  raise_if (before_seen value w.last_seen_at) (invalid entity field "before_last_seen")

abbrev pub refused : WorkerGeneration → WorkerState → ℤ → DomainError
refused w target expected =
    invalid_transition entity w.ref.worker_id (state_value w.state) (state_value target) w.version
      expected

abbrev pub moved : WorkerGeneration → WorkerState → DateTime → WorkerGeneration
moved w target at = record w {
  state = target;
  state_changed_at = at;
  last_seen_at = if is_ready target then some at else w.last_seen_at;
  retired_at = if is_retired target then some at else none;
  version = w.version + 1;
}

pub transition :
    WorkerGeneration → WorkerState → WorkerAuthority → ℤ → DateTime → Command WorkerGeneration
unfolding ensure_authority ensure_expected_version ensure_event_time
transition w target authority expected at = do
  ensure_authority w authority
  ensure_expected_version entity w.ref.worker_id w.version expected
  ensure_event_time w "occurred_at" at
  raise_if (not (worker_transitions w.state target)) (refused w target expected)
  post_init (moved w target at)

-- `_worker_state_from_facts`.
abbrev pub state_from_facts : ReconcileWorkerFacts → WorkerState
state_from_facts facts =
    if facts.drain_requested
    then draining
    else if ltb 0 facts.active_assignments
    then busy
    else ready

abbrev pub observed : WorkerGeneration → WorkerState → DateTime → WorkerGeneration
observed w target at = record w {
  state = target;
  state_changed_at = at;
  last_seen_at = some at;
  version = w.version + 1;
}

pub reconcile :
    WorkerGeneration
    → WorkerAuthority
    → WorkerRef
    → ReconcileWorkerFacts
    → ℤ
    → DateTime
    → Command WorkerGeneration
unfolding ensure_authority ensure_expected_version ensure_observation_time
reconcile w authority authenticated facts expected at = do
  ensure_authority w authority
  raise_if (not (ref_eq authenticated w.ref))
      (generation_conflict w.ref authenticated "generation_not_current")
  ensure_expected_version entity w.ref.worker_id w.version expected
  ensure_observation_time w "observed_at" at
  raise_if (not (is_offline w.state)) (refused w (state_from_facts facts) expected)
  post_init (observed w (state_from_facts facts) at)

pub observe_assignments :
    WorkerGeneration → WorkerAuthority → ℤ → ℤ → DateTime → Command WorkerGeneration
unfolding ensure_authority facts_of ensure_expected_version ensure_observation_time
observe_assignments w authority active expected at = do
  ensure_authority w authority
  facts ← facts_of active false
  ensure_expected_version entity w.ref.worker_id w.version expected
  ensure_observation_time w "observed_at" at
  raise_if (not (may_claim w.state)) (refused w (state_from_facts facts) expected)
  post_init (observed w (state_from_facts facts) at)

unfoldable pub claimable_ref : WorkerGeneration → WorkerAuthority → Command WorkerRef
unfolding ensure_authority
claimable_ref w authority = do
  ensure_authority w authority
  raise_if (not (may_claim w.state)) (not_claimable w.ref (state_value w.state))
  ok w.ref
