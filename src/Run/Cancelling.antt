-- ===== src/Run/Cancelling.antt =====
-- `_validate_cancel_intent_causality` and `_validate_cancellation_history`.
use qarunner.Prelude.{
  Bool, List, Option, [], any, false, if◌then◌else◌, is_some, last, last_such, none, not, ok,
  raise_if, raised, same, some, true, ◌>>◌, ◌||◌, ◌∷◌,
}
use qarunner.Values.{Command, DateTime, Digest, before, digest_eq, same_time}
use qarunner.Values.Canonical.{Hash}
use qarunner.Assignment.{Assignment, AssignmentClosure, AssignmentState, cancelled_prestart}
use qarunner.Retry.{RetryIntent}
use qarunner.Cancellation.{CancellationIntent, cancel_intent_digest}
use qarunner.Run.{Run, invalid_run, is_cancelled}
use qarunner.Run.Lookups.{pending_retry_intent}

-- The last commit time, and the last closure, of the reservations.
abbrev committed_time : Option Assignment → Option DateTime
committed_time none = none
committed_time (some s) = s.committed_at

unfoldable pub latest_commit : List Assignment → Option DateTime
unfolding last_such
latest_commit xs = committed_time (last_such (λ s. is_some s.committed_at) xs)

abbrev closure_of : Option Assignment → Option AssignmentClosure
closure_of none = none
closure_of (some s) = s.closure

unfoldable pub latest_closure : List Assignment → Option AssignmentClosure
unfolding last_such
latest_closure xs = closure_of (last_such (λ s. is_some s.closure) xs)

abbrev pub before_time : DateTime → Option DateTime → Bool
before_time t none = false
before_time t (some u) = before t u

abbrev pub before_closure : DateTime → Option AssignmentClosure → Bool
before_closure t none = false
before_closure t (some c) = before t c.recorded_at

abbrev pub before_intent : DateTime → Option RetryIntent → Bool
before_intent t none = false
before_intent t (some i) = before t i.created_at

unfoldable pub causality_check : Run → Option CancellationIntent → Command (Unit {0})
causality_check r none = ok tt
causality_check r (some c) = do
  raise_if (before_time c.recorded_at (latest_commit r.assignments))
      (invalid_run "cancel_intent" "before_current_attempt_commit")
  raise_if (before_closure c.recorded_at (latest_closure r.assignments))
      (invalid_run "cancel_intent" "before_latest_assignment_closure")
  raise_if (before_intent c.recorded_at (pending_retry_intent r))
      (invalid_run "cancel_intent" "before_pending_retry_intent")

abbrev is_cancelled_prestart : AssignmentState → Bool
is_cancelled_prestart cancelled_prestart = true
is_cancelled_prestart _ = false

abbrev was_cancelled : Assignment → Bool
was_cancelled s = is_cancelled_prestart s.state

-- The one cancelled position is the last: some position is cancelled, and it is not so that the
-- last one alone is.
unfoldable pub cancelled_early : List Assignment → Bool
cancelled_early [] = false
cancelled_early (s ∷ []) = false
cancelled_early (s ∷ t ∷ rest) = was_cancelled s || cancelled_early (t ∷ rest)

abbrev digest_differs : Option Digest → Digest → Bool
digest_differs none d = true
digest_differs (some e) d = not (digest_eq e d)

unfoldable pub closure_binds :
    Hash → Option AssignmentClosure → Option CancellationIntent → Command (Unit {0})
closure_binds sha256 _ none = raised (invalid_run "assignments" "cancelled_prestart_not_terminal")
closure_binds sha256 none (some c) =
    raised (invalid_run "assignments" "cancellation_closure_missing")
closure_binds sha256 (some k) (some c) =
    raise_if
      (digest_differs k.cancellation_intent_digest (cancel_intent_digest sha256 c)
        || not (same k.idempotency_key c.idempotency_key)
        || not (same_time k.effective_at c.recorded_at)
        || not (same_time k.recorded_at c.recorded_at))
      (invalid_run "assignments" "cancellation_intent_mismatch")

unfoldable pub cancellation_history_check : Hash → Run → Command (Unit {0})
unfolding closure_binds cancelled_early
cancellation_history_check sha256 r =
    if any was_cancelled r.assignments
    then raise_if (cancelled_early r.assignments || not (is_cancelled r.state))
        (invalid_run "assignments" "cancelled_prestart_not_terminal")
      >> closure_binds sha256 (closure_of (last r.assignments)) r.cancel_intent
    else ok tt
