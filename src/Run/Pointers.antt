-- ===== src/Run/Pointers.antt =====
-- `_validate_state_pointers` with the evidence snapshots, `_validate_assignment_epoch_tails` and
-- `_validate_retry_intent_consumption`.
use qarunner.Prelude.{
  Bool, List, Option, [], false, holds, is_empty, is_none, is_some, last, none, not, ok, raise_if,
  raised, same, some, texts_differ, true, ◌&&◌, ◌==◌, ◌>>◌, ◌||◌, ◌∷◌,
}
use qarunner.Values.{Command, DateTime, before, digest_eq, ref_eq}
use qarunner.Values.Canonical.{Hash}
use qarunner.Assignment.{Assignment}
use qarunner.Attempt.{Attempt, AttemptState, is_outcome, running}
use qarunner.Attempt.Finalize.{subject_of}
use qarunner.Retry.{RetryIntent}
use qarunner.Cancellation.{CancellationIntent, cancel_intent_digest}
use qarunner.Evidence.Stop.{TrustedCancellationStop}
use qarunner.Evidence.Classify.{EvidenceOutcome}
use qarunner.Evidence.Manifest.{
  EvidenceManifest, EvidenceManifest-discrete, build_evidence_manifest,
}
use qarunner.Run.{
  Run, RunState, assigned, invalid_run, is_cancelled, is_running, planned, queued, retry_queued,
  run_cancelled, running,
}
use qarunner.Run.Lookups.{assignment_of, is_committed, is_open, pending_retry_intent}

-- `rebuilt == evidence`, where an error of the rebuilding counts as a difference.
abbrev agrees : EvidenceManifest → Command EvidenceManifest → Bool
agrees m (ok rebuilt) = holds (EvidenceManifest-discrete rebuilt m)
agrees m (raised e) = false

unfoldable pub rebuilds : Hash → Attempt → EvidenceManifest → Option TrustedCancellationStop → Bool
rebuilds sha256 a m stop = agrees m (
    build_evidence_manifest sha256 (subject_of a) (some m.platform_exit) m.case_summary m.artifacts
      stop)

-- The equality of the dataclasses.
stop_discrete : Discrete (Option TrustedCancellationStop)
stop_discrete = hlevel (qarunner.Prelude.ℕ_discrete, qarunner.Prelude.String-discrete)

-- `min(process_stopped_at, sut_access_stopped_at) < t`.
abbrev pub stopped_before : TrustedCancellationStop → DateTime → Bool
stopped_before s t = before s.process_stopped_at t || before s.sut_access_stopped_at t

abbrev is_cancelled_outcome : EvidenceOutcome → Bool
is_cancelled_outcome EvidenceOutcome.cancelled = true
is_cancelled_outcome _ = false

abbrev pub is_cancelled_attempt : AttemptState → Bool
is_cancelled_attempt AttemptState.cancelled = true
is_cancelled_attempt _ = false

unfoldable pub stop_binds :
    Hash
    → Run
    → Attempt
    → TrustedCancellationStop
    → CancellationIntent
    → EvidenceManifest
    → Command (Unit {0})
unfolding rebuilds stop_discrete
stop_binds sha256 r latest s c m = do
  raise_if
      (not (is_cancelled_attempt latest.state)
        || not (is_cancelled_outcome m.outcome)
        || not (holds (stop_discrete m.cancellation_stop (some s))))
      (invalid_run "cancellation_stop" "attempt_evidence_mismatch")
  raise_if
      (not (same s.run_id r.id)
        || not (same s.attempt_id latest.id)
        || not (s.fence == latest.fence)
        || not (s.fence == r.current_fence)
        || not (ref_eq s.worker latest.worker)
        || not (digest_eq s.cancellation_intent_digest (cancel_intent_digest sha256 c))
        || stopped_before s c.recorded_at)
      (invalid_run "cancellation_stop" "binding_mismatch")
  raise_if (not (rebuilds sha256 latest m (some s)))
      (invalid_run "cancellation_stop" "evidence_root_mismatch")

unfoldable pub stop_evidence :
    Hash
    → Run
    → Attempt
    → TrustedCancellationStop
    → CancellationIntent
    → Option EvidenceManifest
    → Command (Unit {0})
unfolding stop_binds
stop_evidence sha256 r latest s c none =
    raised (invalid_run "cancellation_stop" "attempt_evidence_mismatch")
stop_evidence sha256 r latest s c (some m) = stop_binds sha256 r latest s c m

-- A cancelled Run: after a commit it needs a stop proof, unless a retry was still pending.
unfoldable pub cancelled_stop :
    Hash
    → Run
    → CancellationIntent
    → Option Attempt
    → Option RetryIntent
    → Option TrustedCancellationStop
    → Command (Unit {0})
unfolding stop_evidence
cancelled_stop sha256 r c (some latest) none none =
    raised (invalid_run "cancellation_stop" "required_for_postcommit_cancelled")
cancelled_stop sha256 r c (some latest) none (some s) =
    stop_evidence sha256 r latest s c latest.evidence
cancelled_stop sha256 r c _ _ stop =
    raise_if (is_some stop) (invalid_run "cancellation_stop" "forbidden_without_cancelled_attempt")

unfoldable pub cancelled_check : Hash → Run → Option CancellationIntent → Command (Unit {0})
unfolding cancelled_stop
cancelled_check sha256 r none = raised (invalid_run "cancel_intent" "required_for_cancelled")
cancelled_check sha256 r (some c) =
    cancelled_stop sha256 r c (last r.attempts) (pending_retry_intent r) r.cancellation_stop

-- A reservation in progress; on a retry it carries the pending intent.
unfoldable pub open_check : Run → Option Assignment → Option RetryIntent → Command (Unit {0})
open_check r none pending =
    raised (invalid_run "current_assignment_id" "active_assignment_required")
open_check r (some s) none = do
  raise_if (not (is_open s.state))
      (invalid_run "current_assignment_id" "active_assignment_required")
  raise_if (not (is_empty r.attempts))
      (invalid_run "pending_retry_intent_id" "required_for_retry_assignment")
open_check r (some s) (some i) = do
  raise_if (not (is_open s.state))
      (invalid_run "current_assignment_id" "active_assignment_required")
  raise_if (not (is_empty r.attempts) && texts_differ s.retry_intent_id (some i.id))
      (invalid_run "current_assignment_id" "retry_intent_mismatch")

abbrev pub not_committed : Option Assignment → Bool
not_committed none = true
not_committed (some s) = not (is_committed s.state)

unfoldable pub state_check : Hash → Run → RunState → Command (Unit {0})
unfolding open_check cancelled_check
state_check sha256 r planned =
    raise_if
      (not (is_empty r.assignments) || not (is_empty r.attempts) || not (is_empty r.retry_intents))
      (invalid_run "state" "planned_has_history")
state_check sha256 r queued = do
  raise_if (is_some (assignment_of r))
      (invalid_run "current_assignment_id" "must_be_clear_for_queued")
  raise_if (is_some (pending_retry_intent r))
      (invalid_run "pending_retry_intent_id" "must_be_clear_for_queued")
  raise_if (not (is_empty r.attempts) || not (is_empty r.retry_intents))
      (invalid_run "state" "queued_has_attempt_history")
state_check sha256 r retry_queued = do
  raise_if (is_some (assignment_of r))
      (invalid_run "current_assignment_id" "must_be_clear_for_retry_queued")
  raise_if (is_none (pending_retry_intent r))
      (invalid_run "pending_retry_intent_id" "required_for_retry_queued")
state_check sha256 r assigned = open_check r (assignment_of r) (pending_retry_intent r)
state_check sha256 r run_cancelled = do
  raise_if (is_some (assignment_of r))
      (invalid_run "current_assignment_id" "must_be_clear_for_cancelled")
  cancelled_check sha256 r r.cancel_intent
state_check sha256 r running = do
  raise_if (not_committed (assignment_of r))
      (invalid_run "current_assignment_id" "committed_assignment_required")
  raise_if (is_some (pending_retry_intent r))
      (invalid_run "pending_retry_intent_id" "must_be_consumed_for_running")

unfoldable pub snapshot_check : Hash → Attempt → Option EvidenceManifest → Command (Unit {0})
unfolding rebuilds
snapshot_check sha256 a none = ok tt
snapshot_check sha256 a (some m) = do
  raise_if (not (rebuilds sha256 a m m.cancellation_stop))
      (invalid_run "attempts" "evidence_root_mismatch")
  raise_if (not (is_outcome m.outcome a.state)) (invalid_run "attempts" "evidence_state_mismatch")

-- `_validate_attempt_evidence_snapshots`.
unfoldable pub snapshots_check : Hash → List Attempt → Command (Unit {0})
unfolding snapshot_check
snapshots_check sha256 [] = ok tt
snapshots_check sha256 (a ∷ rest) = do
  snapshot_check sha256 a a.evidence
  snapshots_check sha256 rest

abbrev shows_cancelled : Option EvidenceManifest → Bool
shows_cancelled none = false
shows_cancelled (some m) = is_cancelled_outcome m.outcome

abbrev pub has_cancelled_outcome : Option Attempt → Bool
has_cancelled_outcome none = false
has_cancelled_outcome (some a) = is_cancelled_attempt a.state || shows_cancelled a.evidence

-- `_validate_state_pointers`.
unfoldable pub pointers_check : Hash → Run → Command (Unit {0})
unfolding state_check snapshots_check
pointers_check sha256 r = do
  state_check sha256 r r.state
  snapshots_check sha256 r.attempts
  raise_if
      (has_cancelled_outcome (last r.attempts)
        && not (
            is_cancelled r.state
            && is_none (pending_retry_intent r)
            && is_some r.cancellation_stop))
      (invalid_run "attempts" "cancelled_attempt_requires_converged_run")
  raise_if (not (is_cancelled r.state) && is_some r.cancellation_stop)
      (invalid_run "cancellation_stop" "only_allowed_for_cancelled")
  raise_if (is_some r.cancel_intent && not (is_running r.state || is_cancelled r.state))
      (invalid_run "cancel_intent" "not_allowed_for_state")
