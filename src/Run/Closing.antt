-- ===== src/Run/Closing.antt =====
-- The commands that close a reservation before its start, and the request to cancel a Run.
use qarunner.Prelude.{
  Bool, List, Option, String, [], false, if◌then◌else◌, is_some, joined, none, not, ok, raise_if,
  raised, same, some, true, ℤ, ◌&&◌, ◌+◌, ◌>>=◌, ◌>>◌, ◌||◌, ◌∷◌,
}
use qarunner.Values.{
  Command, DateTime, WorkerRef, assignment_conflict, at_most, before, cancellation_conflict,
  digest_eq, idempotency_conflict, ref_eq,
}
use qarunner.Values.Canonical.{Hash}
use qarunner.Assignment.{
  Assignment, AssignmentClosure, AssignmentClosureKind, cancelled, close_prestart,
  closure_post_init, expired, released,
}
use qarunner.Assignment.Request.{closure_request_digest}
use qarunner.Cancellation.{
  CancellationIntent, CancellationSource, cancel_intent_digest, cancel_intent_post_init,
  cancel_request_digest,
}
use qarunner.Run.{
  Run, RunState, invalid_run, is_assigned, is_queued, is_retry_queued, is_running, queued,
  retry_queued, run_cancelled, running,
}
use qarunner.Run.Lookups.{assignment_of, find_assignment, is_open, pending_retry_intent, scope_of}
use qarunner.Run.Cancelling.{before_closure, before_intent, before_time, latest_closure}
use qarunner.Run.Current.{command_time, expect_version, refused_run, replace_current_assignment}
use qarunner.Run.Aggregate.{run_post_init}

abbrev closing_scope : Run → AssignmentClosure → String
closing_scope r c =
    joined ("run:" ∷ r.id ∷ ":assignment:" ∷ c.assignment_id ∷ ":precommit-closure" ∷ [])

-- An earlier closure of the reservation: a replay has its key and its content.
unfoldable pub replay_closure : Hash → Run → AssignmentClosure → AssignmentClosure → Command Run
unfolding closure_request_digest
replay_closure sha256 r stored c = do
  raise_if (not (same stored.idempotency_key c.idempotency_key))
      (assignment_conflict r.id c.assignment_id "assignment_already_closed")
  old ← closure_request_digest sha256 stored
  received ← closure_request_digest sha256 c
  raise_if (not (digest_eq old received))
      (idempotency_conflict (closing_scope r c) c.idempotency_key old received)
  ok r

abbrev release_floor : Assignment → Option DateTime → DateTime
release_floor s none = s.offered_at
release_floor s (some t) = t

abbrev other_worker : Option WorkerRef → WorkerRef → Bool
other_worker none worker = true
other_worker (some w) worker = not (ref_eq w worker)

-- The tests by the kind of closure. `_close_precommit_assignment` gets no cancellation.
unfoldable pub closing_check :
    Run → AssignmentClosure → Assignment → AssignmentClosureKind → Command (Unit {0})
closing_check r c s expired =
    raise_if (before c.recorded_at s.expires_at)
      (assignment_conflict r.id c.assignment_id "assignment_not_expired")
closing_check r c s _ = do
  raise_if (other_worker c.worker s.worker)
      (assignment_conflict r.id c.assignment_id "worker_mismatch")
  raise_if (before c.recorded_at (release_floor s s.claimed_at)) (
      assignment_conflict r.id c.assignment_id
        (if is_some s.claimed_at then "release_before_claim" else "assignment_not_effective"))
  raise_if (at_most s.expires_at c.recorded_at)
      (assignment_conflict r.id c.assignment_id "assignment_expired")

abbrev resume_state : Option String → RunState
resume_state none = queued
resume_state (some id) = retry_queued

abbrev pub resumed_run : Run → Assignment → List Assignment → Run
resumed_run r s xs = record r {
  state = resume_state s.retry_intent_id;
  assignments = xs;
  current_assignment_id = none;
  version = r.version + 1;
}

unfoldable pub close_current : Hash → Run → AssignmentClosure → Option Assignment → Command Run
unfolding closing_check replace_current_assignment
close_current sha256 r c none =
    raised (assignment_conflict r.id c.assignment_id "assignment_not_precommit")
close_current sha256 r c (some s) = do
  raise_if (not (is_assigned r.state) || not (same s.id c.assignment_id) || not (is_open s.state))
      (assignment_conflict r.id c.assignment_id "assignment_not_precommit")
  closing_check r c s c.kind
  closed ← close_prestart s c
  xs ← replace_current_assignment r closed
  run_post_init sha256 (resumed_run r s xs)

abbrev pub closure_of : Option Assignment → Option AssignmentClosure
closure_of none = none
closure_of (some s) = s.closure

unfoldable pub close_found :
    Hash → Run → AssignmentClosure → ℤ → Option AssignmentClosure → Command Run
unfolding replay_closure expect_version close_current
close_found sha256 r c expected (some stored) = replay_closure sha256 r stored c
close_found sha256 r c expected none = do
  expect_version r expected
  close_current sha256 r c (assignment_of r)

-- `_close_precommit_assignment`.
unfoldable pub close_precommit_assignment : Hash → Run → AssignmentClosure → ℤ → Command Run
unfolding close_found
close_precommit_assignment sha256 r c expected =
    close_found sha256 r c expected (closure_of (find_assignment c.assignment_id r.assignments))

abbrev earlier : DateTime → Option Assignment → DateTime
earlier t none = t
earlier t (some s) = if before s.expires_at t then s.expires_at else t

unfoldable pub expire_precommit_assignment :
    Hash → Run → (assignment_id expiry_key : String) → DateTime → ℤ → Command Run
unfolding command_time
expire_precommit_assignment sha256 r id key at expected = do
  command_time "observed_at" at
  c ← closure_post_init (record {
    assignment_id = id;
    idempotency_key = key;
    kind = expired;
    effective_at = earlier at (find_assignment id r.assignments);
    recorded_at = at;
    worker = none;
    cancellation_intent_digest = none;
  })
  close_precommit_assignment sha256 r c expected

unfoldable pub release_precommit_assignment :
    Hash
    → Run
    → (assignment_id : String) → WorkerRef
    → (release_key : String) → DateTime
    → ℤ
    → Command Run
unfolding command_time
release_precommit_assignment sha256 r id worker key at expected = do
  command_time "observed_at" at
  c ← closure_post_init (record {
    assignment_id = id;
    idempotency_key = key;
    kind = released;
    effective_at = at;
    recorded_at = at;
    worker = some worker;
    cancellation_intent_digest = none;
  })
  close_precommit_assignment sha256 r c expected

-- A stored intent: a replay has its key and its content.
unfoldable pub replay_cancel : Hash → Run → CancellationIntent → CancellationIntent → Command Run
unfolding cancel_request_digest
replay_cancel sha256 r stored c = do
  raise_if (not (same stored.idempotency_key c.idempotency_key))
      (cancellation_conflict r.id stored.idempotency_key c.idempotency_key)
  raise_if (not (digest_eq (cancel_request_digest sha256 stored) (cancel_request_digest sha256 c)))
      (idempotency_conflict (scope_of r "cancel") c.idempotency_key
        (cancel_request_digest sha256 stored) (cancel_request_digest sha256 c))
  ok r

-- The closure that a cancellation gives the current reservation: past its expiry it has expired.
abbrev pub cancel_closure : Hash → CancellationIntent → Assignment → AssignmentClosure
cancel_closure sha256 c s =
    if at_most s.expires_at c.recorded_at
    then record {
      assignment_id = s.id;
      idempotency_key = c.idempotency_key;
      kind = expired;
      effective_at = s.expires_at;
      recorded_at = c.recorded_at;
      worker = none;
      cancellation_intent_digest = none;
    }
    else record {
      assignment_id = s.id;
      idempotency_key = c.idempotency_key;
      kind = cancelled;
      effective_at = c.recorded_at;
      recorded_at = c.recorded_at;
      worker = none;
      cancellation_intent_digest = some (cancel_intent_digest sha256 c);
    }

abbrev pub unreserved_run : Run → CancellationIntent → List Assignment → Run
unreserved_run r c xs = record r {
  state = run_cancelled;
  version = r.version + 1;
  assignments = xs;
  current_assignment_id = none;
  cancel_intent = some c;
}

-- In the state ASSIGNED, the reservation is closed as well.
unfoldable pub reserved_cancelled :
    Hash → Run → CancellationIntent → Option Assignment → Command Run
unfolding cancel_intent_digest replace_current_assignment
reserved_cancelled sha256 r c none =
    raised (assignment_conflict r.id "" "current_assignment_missing")
reserved_cancelled sha256 r c (some s) = do
  closure ← closure_post_init (cancel_closure sha256 c s)
  closed ← close_prestart s closure
  xs ← replace_current_assignment r closed
  run_post_init sha256 (unreserved_run r c xs)

abbrev pub intended_run : Run → CancellationIntent → Run
intended_run r c = record r {
  state = if is_queued r.state || is_retry_queued r.state then run_cancelled else running;
  version = r.version + 1;
  cancel_intent = some c;
}

abbrev pub committed_at? : Option Assignment → Option DateTime
committed_at? none = none
committed_at? (some s) = s.committed_at

unfoldable pub cancel_by_state : Hash → Run → CancellationIntent → Bool → Command Run
unfolding reserved_cancelled
cancel_by_state sha256 r c true = reserved_cancelled sha256 r c (assignment_of r)
cancel_by_state sha256 r c false = run_post_init sha256 (intended_run r c)

unfoldable pub cancel_new : Hash → Run → CancellationIntent → ℤ → Command Run
unfolding expect_version cancel_by_state
cancel_new sha256 r c expected = do
  raise_if
      (not
        (is_queued r.state || is_assigned r.state || is_running r.state || is_retry_queued r.state))
      (refused_run r run_cancelled expected)
  raise_if (is_running r.state && before_time c.recorded_at (committed_at? (assignment_of r)))
      (invalid_run "observed_at" "before_current_attempt_commit")
  raise_if (before_closure c.recorded_at (latest_closure r.assignments))
      (invalid_run "observed_at" "before_latest_assignment_closure")
  raise_if (before_intent c.recorded_at (pending_retry_intent r))
      (invalid_run "observed_at" "before_pending_retry_intent")
  expect_version r expected
  cancel_by_state sha256 r c (is_assigned r.state)

unfoldable pub cancel_found :
    Hash → Run → CancellationIntent → ℤ → Option CancellationIntent → Command Run
unfolding replay_cancel cancel_new
cancel_found sha256 r c expected (some stored) = replay_cancel sha256 r stored c
cancel_found sha256 r c expected none = cancel_new sha256 r c expected

unfoldable pub request_cancel :
    Hash
    → Run
    → (cancel_key : String) (source : CancellationSource) (actor_id reason : String)
      (observed_at : DateTime) (expected_version : ℤ)
    → Command Run
unfolding cancel_intent_post_init cancel_found
request_cancel sha256 r key source actor reason at expected = do
  c ← cancel_intent_post_init (record {
    run_id = r.id;
    idempotency_key = key;
    source = source;
    actor_id = actor;
    reason = reason;
    recorded_at = at;
  })
  cancel_found sha256 r c expected r.cancel_intent
