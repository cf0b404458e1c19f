-- ===== src/Assignment.antt =====
-- domain/assignment.py: the reservation of a Worker generation, and the fact that closes one
-- before a start is committed.
pub mod Validity
pub mod Lifecycle
pub mod Request
mod Examples
use qarunner.Prelude.{
  Bool, Option, String, false, is_blank, is_none, is_some, none, not, ok, raise_if, raised, same,
  some, true, ◌&&◌, ◌>>◌, ◌||◌,
}
use qarunner.Values.{
  Command, DateTime, Digest, DomainError, WorkerRef, at_most, before, invalid, ref_eq, require_utc,
  same_time,
}

pub data AssignmentState : Type 0 where
  offered : AssignmentState
  claimed : AssignmentState
  committed : AssignmentState
  expired_prestart : AssignmentState
  released_prestart : AssignmentState
  cancelled_prestart : AssignmentState

pub data AssignmentClosureKind : Type 0 where
  expired : AssignmentClosureKind
  released : AssignmentClosureKind
  cancelled : AssignmentClosureKind

pub record AssignmentClosure : Type 0 where
  pub assignment_id : String
  pub idempotency_key : String
  pub kind : AssignmentClosureKind
  pub effective_at : DateTime
  pub recorded_at : DateTime
  pub worker : Option WorkerRef
  pub cancellation_intent_digest : Option Digest

abbrev bad_closure : String → String → DomainError
bad_closure = invalid "assignment_closure"

-- The tests that depend on the kind.
closure_kind_check : AssignmentClosureKind → Option WorkerRef → Option Digest → Command (Unit {0})
closure_kind_check expired worker digest = do
  raise_if (is_some worker) (bad_closure "worker" "forbidden_for_kind")
  raise_if (is_some digest) (bad_closure "cancellation_intent_digest" "forbidden_for_kind")
closure_kind_check released worker digest = do
  raise_if (is_none worker) (bad_closure "worker" "required_for_kind")
  raise_if (is_some digest) (bad_closure "cancellation_intent_digest" "forbidden_for_kind")
closure_kind_check cancelled worker digest = do
  raise_if (is_some worker) (bad_closure "worker" "forbidden_for_kind")
  raise_if (is_none digest) (bad_closure "cancellation_intent_digest" "required_for_kind")

unfoldable pub closure_post_init : AssignmentClosure → Command AssignmentClosure
unfolding require_utc closure_kind_check
closure_post_init c = do
  raise_if (is_blank c.assignment_id) (bad_closure "assignment_id" "empty")
  raise_if (is_blank c.idempotency_key) (bad_closure "idempotency_key" "empty")
  require_utc "assignment_closure" "effective_at" c.effective_at
  require_utc "assignment_closure" "recorded_at" c.recorded_at
  raise_if (before c.recorded_at c.effective_at) (bad_closure "recorded_at" "before_effective_at")
  closure_kind_check c.kind c.worker c.cancellation_intent_digest
  ok c

pub record Assignment : Type 0 where
  pub id : String
  pub worker : WorkerRef
  pub spec_digest : Digest
  pub state : AssignmentState
  pub offered_at : DateTime
  pub expires_at : DateTime
  pub claimed_at : Option DateTime
  pub committed_at : Option DateTime
  pub retry_intent_id : Option String
  pub closure : Option AssignmentClosure

abbrev bad : String → String → DomainError
bad = invalid "assignment"

optional_utc : String → Option DateTime → Command (Unit {0})
unfolding require_utc
optional_utc field none = ok tt
optional_utc field (some t) = require_utc "assignment" field t

-- `claimed_at is not None and not (offered_at <= claimed_at < expires_at)`.
abbrev outside : DateTime → DateTime → Option DateTime → Bool
outside start end none = false
outside start end (some t) = not (at_most start t && before t end)

-- `committed_at is not None and (claimed_at is None or not (claimed_at <= committed_at < expires_at))`.
abbrev outside_claim : Option DateTime → DateTime → Option DateTime → Bool
outside_claim claimed_at end none = false
outside_claim none end (some t) = true
outside_claim (some start) end (some t) = not (at_most start t && before t end)

abbrev is_blank? : Option String → Bool
is_blank? none = false
is_blank? (some s) = is_blank s

-- The state that a closure of a kind leads to.
abbrev pub terminal_state : AssignmentClosureKind → AssignmentState
terminal_state expired = expired_prestart
terminal_state released = released_prestart
terminal_state cancelled = cancelled_prestart

-- `terminal_kind`, the other way round.
abbrev pub terminal_kind : AssignmentState → Option AssignmentClosureKind
terminal_kind expired_prestart = some expired
terminal_kind released_prestart = some released
terminal_kind cancelled_prestart = some cancelled
terminal_kind _ = none

abbrev is_kind : AssignmentClosureKind → AssignmentClosureKind → Bool
is_kind expired expired = true
is_kind released released = true
is_kind cancelled cancelled = true
is_kind _ _ = false

-- The last part of `__post_init__` in a state that no closure ends.
open_state_check : Assignment → AssignmentState → Command (Unit {0})
open_state_check a offered =
    raise_if (is_some a.claimed_at || is_some a.committed_at)
      (bad "claimed_at" "forbidden_for_state")
open_state_check a claimed =
    raise_if (is_none a.claimed_at || is_some a.committed_at)
      (bad "claimed_at" "required_for_state")
open_state_check a committed =
    raise_if (is_none a.committed_at) (bad "committed_at" "required_for_state")
open_state_check a _ = ok tt

abbrev same_worker? : Option WorkerRef → WorkerRef → Bool
same_worker? none worker = false
same_worker? (some other) worker = ref_eq other worker

-- `claimed_at is not None and effective_at < claimed_at`.
abbrev before_claim : DateTime → Option DateTime → Bool
before_claim t none = false
before_claim t (some at) = before t at

-- The tests of a closure that is not an expiry.
in_window_check : Assignment → AssignmentClosure → Command (Unit {0})
in_window_check a c = do
  raise_if (before_claim c.effective_at a.claimed_at) (bad "closure" "before_claimed_at")
  raise_if (before c.effective_at a.offered_at) (bad "closure" "before_offered_at")
  raise_if (at_most a.expires_at c.effective_at) (bad "closure" "at_or_after_expiry")

closure_check : Assignment → AssignmentClosureKind → AssignmentClosure → Command (Unit {0})
unfolding in_window_check
closure_check a expired c =
    raise_if (not (same_time c.effective_at a.expires_at))
      (bad "closure" "expiry_effective_at_mismatch")
closure_check a released c = do
  raise_if (not (same_worker? c.worker a.worker)) (bad "closure" "worker_mismatch")
  in_window_check a c
closure_check a cancelled c = in_window_check a c

closed_state_check :
    Assignment → AssignmentClosureKind → Option AssignmentClosure → Command (Unit {0})
closed_state_check a kind none = raised (bad "closure" "required_for_state")
closed_state_check a kind (some c) = do
  raise_if (not (same c.assignment_id a.id)) (bad "closure" "assignment_mismatch")
  raise_if (not (is_kind c.kind kind)) (bad "closure" "state_mismatch")
  closure_check a c.kind c

state_check : Assignment → Option AssignmentClosureKind → Command (Unit {0})
unfolding open_state_check closed_state_check closure_check
state_check a none = do
  raise_if (is_some a.closure) (bad "closure" "forbidden_for_state")
  open_state_check a a.state
state_check a (some kind) = do
  raise_if (is_some a.committed_at) (bad "committed_at" "forbidden_for_state")
  closed_state_check a kind a.closure

-- `__post_init__`.
unfoldable pub post_init : Assignment → Command Assignment
unfolding require_utc optional_utc state_check
post_init a = do
  raise_if (is_blank a.id) (bad "id" "empty")
  require_utc "assignment" "offered_at" a.offered_at
  require_utc "assignment" "expires_at" a.expires_at
  raise_if (at_most a.expires_at a.offered_at) (bad "expires_at" "not_after_offered_at")
  optional_utc "claimed_at" a.claimed_at
  optional_utc "committed_at" a.committed_at
  raise_if (outside a.offered_at a.expires_at a.claimed_at)
      (bad "claimed_at" "outside_offer_window")
  raise_if (outside_claim a.claimed_at a.expires_at a.committed_at)
      (bad "committed_at" "outside_claim_window")
  raise_if (is_blank? a.retry_intent_id) (bad "retry_intent_id" "invalid")
  state_check a (terminal_kind a.state)
  ok a

unfoldable pub offer :
    (assignment_id : String) (worker : WorkerRef) (spec_digest : Digest)
    (offered_at expires_at : DateTime) (retry_intent_id : Option String)
    → Command Assignment
unfolding post_init
offer assignment_id worker spec_digest offered_at expires_at retry_intent_id = post_init (record {
  id = assignment_id;
  worker = worker;
  spec_digest = spec_digest;
  state = offered;
  offered_at = offered_at;
  expires_at = expires_at;
  claimed_at = none;
  committed_at = none;
  retry_intent_id = retry_intent_id;
  closure = none;
})

abbrev is_offered : AssignmentState → Bool
is_offered offered = true
is_offered _ = false

abbrev is_claimed : AssignmentState → Bool
is_claimed claimed = true
is_claimed _ = false

unfoldable pub claim : Assignment → DateTime → Command Assignment
unfolding post_init
claim a at = do
  raise_if (not (is_offered a.state)) (bad "state" "transition_not_allowed")
  post_init (record a { state = claimed; claimed_at = some at })

unfoldable pub commit : Assignment → DateTime → Command Assignment
unfolding post_init
commit a at = do
  raise_if (not (is_claimed a.state)) (bad "state" "transition_not_allowed")
  post_init (record a { state = committed; committed_at = some at })

unfoldable pub close_prestart : Assignment → AssignmentClosure → Command Assignment
unfolding post_init
close_prestart a c = do
  raise_if (not (is_offered a.state || is_claimed a.state)) (bad "state" "transition_not_allowed")
  post_init (record a { state = terminal_state c.kind; closure = some c })
