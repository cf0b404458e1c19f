-- ===== src/Run/Refinement/Ending.antt =====
-- The commands that close a reservation or record a cancellation.
use qarunner.Prelude.{
  >>=-eq-ok, Bool, Option, String, arith, false, inl, none, not, ok, pos, raise_if, refl, same,
  some, true, ℤ, ◌&&◌, ◌||◌, ◌≡◌,
}
use qarunner.Values.{DateTime, WorkerRef, digest_eq}
use qarunner.Values.Canonical.{Hash}
use qarunner.Run.{Run, assigned, is_assigned, is_queued, is_retry_queued, is_running}
use qarunner.Run.Lookups.{assignment_of, find_assignment, is_open, pending_retry_intent}
use qarunner.Run.Current.{command_time, expect_version, replace_current_assignment}
use qarunner.Run.Change.{cancel_reserved, intend, resume}
use qarunner.Run.Refinement.{Accepted, expect_version-same, made}
use qarunner.Assignment.{Assignment, AssignmentClosure, close_prestart, closure_post_init}
use qarunner.Assignment.Request.{closure_request_digest}
use qarunner.Cancellation.{
  CancellationIntent, CancellationSource, cancel_intent_post_init, cancel_request_digest,
}
use qarunner.Run.Cancelling.{before_closure, before_intent, before_time, latest_closure}
use qarunner.Run.Closing.{
  cancel_by_state, cancel_closure, cancel_found, cancel_new, close_current, close_found,
  close_precommit_assignment, closing_check, closure_of, committed_at?, expire_precommit_assignment,
  intended_run, release_precommit_assignment, replay_cancel, replay_closure, request_cancel,
  reserved_cancelled, resumed_run, unreserved_run,
}

replay_closure-same :
    (sha256 : Hash) (r v : Run) (stored c : AssignmentClosure)
    → replay_closure sha256 r stored c ≡ ok v
    → v ≡ r
unfolding replay_closure
replay_closure-same sha256 r v stored c h =
    let (u, e1, h1) =
      >>=-eq-ok (raise_if (not (same stored.idempotency_key c.idempotency_key)) _) _ h in
    let (d, e2, h2) = >>=-eq-ok (closure_request_digest sha256 stored) _ h1 in
    let (d', e3, h3) = >>=-eq-ok (closure_request_digest sha256 c) _ h2 in ground (arith, h3)

close_current-Accepted :
    (sha256 : Hash) (r v : Run) (c : AssignmentClosure) (o : Option Assignment) (expected : ℤ)
    → expected ≡ pos r.version
    → close_current sha256 r c o ≡ ok v
    → Accepted sha256 r expected v
unfolding close_current
close_current-Accepted sha256 r v c none expected n h = ground (arith, h)
close_current-Accepted sha256 r v c (some s) expected n h =
    let (u, e1, h1) =
      >>=-eq-ok
        (raise_if
          (not (is_assigned r.state) || not (same s.id c.assignment_id) || not (is_open s.state)) _)
        _ h in
    let (u', e2, h2) = >>=-eq-ok (closing_check r c s c.kind) _ h1 in
    let (t, e3, h3) = >>=-eq-ok (close_prestart s c) _ h2 in
    let (xs, e4, h4) = >>=-eq-ok (replace_current_assignment r t) _ h3 in
    made sha256 r (resumed_run r s xs) v expected n (resume s xs (ground (arith, e1))) h4

close_found-Accepted :
    (sha256 : Hash) (r v : Run) (c : AssignmentClosure) (expected : ℤ)
    (o : Option AssignmentClosure)
    → close_found sha256 r c expected o ≡ ok v
    → Accepted sha256 r expected v
unfolding close_found
close_found-Accepted sha256 r v c expected (some stored) h =
    inl (replay_closure-same sha256 r v stored c h)
close_found-Accepted sha256 r v c expected none h =
    let (u, e1, h1) = >>=-eq-ok (expect_version r expected) _ h in
    close_current-Accepted sha256 r v c (assignment_of r) expected
      (expect_version-same r expected u e1) h1

close_precommit-Accepted :
    (sha256 : Hash) (r v : Run) (c : AssignmentClosure) (expected : ℤ)
    → close_precommit_assignment sha256 r c expected ≡ ok v
    → Accepted sha256 r expected v
unfolding close_precommit_assignment
close_precommit-Accepted sha256 r v c expected h =
    close_found-Accepted sha256 r v c expected
      (closure_of (find_assignment c.assignment_id r.assignments)) h

pub expire_precommit_assignment-Accepted :
    (sha256 : Hash) (r v : Run) (id key : String) (at : DateTime) (expected : ℤ)
    → expire_precommit_assignment sha256 r id key at expected ≡ ok v
    → Accepted sha256 r expected v
unfolding expire_precommit_assignment
expire_precommit_assignment-Accepted sha256 r v id key at expected h =
    let (u, e1, h1) = >>=-eq-ok (command_time "observed_at" at) _ h in
    let (c, e2, h2) = >>=-eq-ok (closure_post_init _) _ h1 in
    close_precommit-Accepted sha256 r v c expected h2

pub release_precommit_assignment-Accepted :
    (sha256 : Hash) (r v : Run) (id : String) (worker : WorkerRef) (key : String) (at : DateTime)
    (expected : ℤ)
    → release_precommit_assignment sha256 r id worker key at expected ≡ ok v
    → Accepted sha256 r expected v
unfolding release_precommit_assignment
release_precommit_assignment-Accepted sha256 r v id worker key at expected h =
    let (u, e1, h1) = >>=-eq-ok (command_time "observed_at" at) _ h in
    let (c, e2, h2) = >>=-eq-ok (closure_post_init _) _ h1 in
    close_precommit-Accepted sha256 r v c expected h2

replay_cancel-same :
    (sha256 : Hash) (r v : Run) (stored c : CancellationIntent)
    → replay_cancel sha256 r stored c ≡ ok v
    → v ≡ r
unfolding replay_cancel
replay_cancel-same sha256 r v stored c h =
    let (u, e1, h1) =
      >>=-eq-ok (raise_if (not (same stored.idempotency_key c.idempotency_key)) _) _ h in
    let (u', e2, h2) =
      >>=-eq-ok
        (raise_if
          (not (digest_eq (cancel_request_digest sha256 stored) (cancel_request_digest sha256 c)))
          _)
        _ h1 in
    ground (arith, h2)

cancel_reserved-Accepted :
    (sha256 : Hash) (r v : Run) (c : CancellationIntent) (o : Option Assignment) (expected : ℤ)
    → expected ≡ pos r.version
    → r.state ≡ assigned
    → r.cancel_intent ≡ none
    → reserved_cancelled sha256 r c o ≡ ok v
    → Accepted sha256 r expected v
unfolding reserved_cancelled
cancel_reserved-Accepted sha256 r v c none expected n s i h = ground (arith, h)
cancel_reserved-Accepted sha256 r v c (some t) expected n s i h =
    let (k, e1, h1) = >>=-eq-ok (closure_post_init (cancel_closure sha256 c t)) _ h in
    let (t', e2, h2) = >>=-eq-ok (close_prestart t k) _ h1 in
    let (xs, e3, h3) = >>=-eq-ok (replace_current_assignment r t') _ h2 in
    made sha256 r (unreserved_run r c xs) v expected n (cancel_reserved c xs s i) h3

cancel_by_state-Accepted :
    (sha256 : Hash) (r v : Run) (c : CancellationIntent) (b : Bool) (expected : ℤ)
    → expected ≡ pos r.version
    → is_assigned r.state ≡ b
    → (is_queued r.state || is_assigned r.state || is_running r.state || is_retry_queued r.state)
      ≡ true
    → r.cancel_intent ≡ none
    → cancel_by_state sha256 r c b ≡ ok v
    → Accepted sha256 r expected v
unfolding cancel_by_state
cancel_by_state-Accepted sha256 r v c true expected n e live i h =
    cancel_reserved-Accepted sha256 r v c (assignment_of r) expected n (ground (arith, e)) i h
cancel_by_state-Accepted sha256 r v c false expected n e live i h =
    made sha256 r (intended_run r c) v expected n (intend c (ground (arith, e, live)) i) h

cancel_found-Accepted :
    (sha256 : Hash) (r v : Run) (c : CancellationIntent) (expected : ℤ)
    (o : Option CancellationIntent)
    → r.cancel_intent ≡ o
    → cancel_found sha256 r c expected o ≡ ok v
    → Accepted sha256 r expected v
unfolding cancel_found cancel_new
cancel_found-Accepted sha256 r v c expected (some stored) i h =
    inl (replay_cancel-same sha256 r v stored c h)
cancel_found-Accepted sha256 r v c expected none i h =
    let (u, e1, h1) =
      >>=-eq-ok
        (raise_if
          (not (
            is_queued r.state
            || is_assigned r.state
            || is_running r.state
            || is_retry_queued r.state))
          _)
        _ h in
    let (u', e2, h2) =
      >>=-eq-ok
        (raise_if
          (is_running r.state && before_time c.recorded_at (committed_at? (assignment_of r))) _)
        _ h1 in
    let (u'', e3, h3) =
      >>=-eq-ok (raise_if (before_closure c.recorded_at (latest_closure r.assignments)) _) _ h2 in
    let (u3, e4, h4) =
      >>=-eq-ok (raise_if (before_intent c.recorded_at (pending_retry_intent r)) _) _ h3 in
    let (u4, e5, h5) = >>=-eq-ok (expect_version r expected) _ h4 in
    cancel_by_state-Accepted sha256 r v c (is_assigned r.state) expected
      (expect_version-same r expected u4 e5) refl (ground (arith, e1)) i h5

pub request_cancel-Accepted :
    (sha256 : Hash) (r v : Run) (key : String) (source : CancellationSource) (actor reason : String)
    (at : DateTime) (expected : ℤ)
    → request_cancel sha256 r key source actor reason at expected ≡ ok v
    → Accepted sha256 r expected v
unfolding request_cancel
request_cancel-Accepted sha256 r v key source actor reason at expected h =
    let (c, e1, h1) =
      >>=-eq-ok
        (cancel_intent_post_init (record {
          run_id = r.id;
          idempotency_key = key;
          source = source;
          actor_id = actor;
          reason = reason;
          recorded_at = at;
        }))
        (λ c. cancel_found sha256 r c expected r.cancel_intent) h in
    cancel_found-Accepted sha256 r v c expected r.cancel_intent refl h1
