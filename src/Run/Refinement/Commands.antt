-- ===== src/Run/Refinement/Commands.antt =====
-- All the commands of a Run as one type of request, and what each of them may do.
use qarunner.Prelude.{String, arith, ok, raised, refl, ℕ, ℤ, ◌≡◌}
use qarunner.Values.{
  AttemptAuthority, AttemptEvent, Command, DateTime, Digest, WorkerAuthority, WorkerRef,
}
use qarunner.Values.Canonical.{Hash}
use qarunner.Worker.{WorkerGeneration}
use qarunner.Evidence.Stop.{TrustedCancellationStop}
use qarunner.Unknown.{UnknownAdjudication, UnknownObservation}
use qarunner.Attempt.{AttemptState}
use qarunner.Attempt.Finalize.{Facts}
use qarunner.Retry.{RetryIntent}
use qarunner.RetryPolicy.{RunRetryDecision}
use qarunner.Cancellation.{CancellationSource}
use qarunner.Run.{Run, RunState}
use qarunner.Run.Scheduling.{claim_assignment, offer_assignment, transition_run}
use qarunner.Run.Committing.{CommitStartResult, commit_start}
use qarunner.Run.Closing.{expire_precommit_assignment, release_precommit_assignment, request_cancel}
use qarunner.Run.Execution.{
  FinalizeResult, finalize_cancelled_attempt_evidence, finalize_current_attempt_evidence,
  mark_cancel_stop_unproven, mark_current_attempt_unknown, record_current_attempt_event,
  transition_current_attempt,
}
use qarunner.Run.Retries.{
  append_current_unknown_adjudication, queue_adjudicated_retry, queue_policy_retry,
}
use qarunner.Run.Refinement.{Accepted}
use qarunner.Run.Refinement.Reserving.{
  claim_assignment-Accepted, offer_assignment-Accepted, transition_run-Accepted,
}
use qarunner.Run.Refinement.Starting.{commit_start-Accepted}
use qarunner.Run.Refinement.Ending.{
  expire_precommit_assignment-Accepted, release_precommit_assignment-Accepted,
  request_cancel-Accepted,
}
use qarunner.Run.Refinement.Executing.{
  mark_cancel_stop_unproven-Accepted, mark_current_attempt_unknown-Accepted,
  transition_current_attempt-Accepted,
}
use qarunner.Run.Refinement.Reporting.{
  finalize_cancelled_attempt_evidence-Accepted, finalize_current_attempt_evidence-Accepted,
  record_current_attempt_event-Accepted,
}
use qarunner.Run.Refinement.Retrying.{
  append_current_unknown_adjudication-Accepted, queue_adjudicated_retry-Accepted,
  queue_policy_retry-Accepted,
}

-- The methods of a Run with their arguments; each ends with the version that its caller expects.
pub data RunRequest : Type 0 where
  enter_state : (target : RunState) (expected : ℤ) → RunRequest
  offer_to :
      (id : String) (worker : WorkerGeneration) (authority : WorkerAuthority) (spec : Digest)
      (offered_at expires_at : DateTime) (expected : ℤ)
      → RunRequest
  take : (id : String) (worker : WorkerRef) (observed_at : DateTime) (expected : ℤ) → RunRequest
  begin_attempt :
      (id : String) (worker : WorkerRef) (key : String) (spec : Digest) (attempt_id : String)
      (observed_at : DateTime) (expected : ℤ)
      → RunRequest
  expire_offer : (id key : String) (observed_at : DateTime) (expected : ℤ) → RunRequest
  give_back :
      (id : String) (worker : WorkerRef) (key : String) (observed_at : DateTime) (expected : ℤ)
      → RunRequest
  ask_cancel :
      (key : String) (source : CancellationSource) (actor_id reason : String)
      (observed_at : DateTime) (expected : ℤ)
      → RunRequest
  move_attempt :
      (attempt_id : String) (target : AttemptState) (expected expected_attempt : ℤ) → RunRequest
  lose_attempt :
      (attempt_id : String) (o : UnknownObservation) (expected expected_attempt : ℤ) → RunRequest
  lose_stop :
      (attempt_id observation_id : String) (recorded_at : DateTime) (expected expected_attempt : ℤ)
      → RunRequest
  report_event :
      (attempt_id : String) (e : AttemptEvent) (authority : AttemptAuthority) (worker : WorkerRef)
      (fence : ℕ) (expected expected_attempt : ℤ)
      → RunRequest
  finish_attempt :
      (attempt_id : String) (f : Facts) (authority : AttemptAuthority) (worker : WorkerRef)
      (fence : ℕ) (expected expected_attempt : ℤ)
      → RunRequest
  finish_cancelled :
      (attempt_id : String) (f : Facts) (stop : TrustedCancellationStop)
      (authority : AttemptAuthority) (worker : WorkerRef) (fence : ℕ)
      (expected expected_attempt : ℤ)
      → RunRequest
  adjudicate_attempt :
      (attempt_id : String) (j : UnknownAdjudication) (expected expected_attempt : ℤ) → RunRequest
  retry_adjudicated : (i : RetryIntent) (expected : ℤ) → RunRequest
  retry_by_policy : (i : RetryIntent) (d : RunRetryDecision) (expected : ℤ) → RunRequest

-- The Run of a command's result.
abbrev pub started : Command CommitStartResult → Command Run
started (ok c) = ok c.run
started (raised x) = raised x

abbrev pub finished : Command FinalizeResult → Command Run
finished (ok c) = ok c.run
finished (raised x) = raised x

-- The version of the Run that the caller expects.
abbrev pub expected_of : RunRequest → ℤ
expected_of (enter_state target expected) = expected
expected_of (offer_to id worker authority spec offered_at expires_at expected) = expected
expected_of (take id worker at expected) = expected
expected_of (begin_attempt id worker key spec attempt_id at expected) = expected
expected_of (expire_offer id key at expected) = expected
expected_of (give_back id worker key at expected) = expected
expected_of (ask_cancel key source actor_id reason at expected) = expected
expected_of (move_attempt id target expected m) = expected
expected_of (lose_attempt id o expected m) = expected
expected_of (lose_stop id observation_id at expected m) = expected
expected_of (report_event id e authority worker fence expected m) = expected
expected_of (finish_attempt id f authority worker fence expected m) = expected
expected_of (finish_cancelled id f stop authority worker fence expected m) = expected
expected_of (adjudicate_attempt id j expected m) = expected
expected_of (retry_adjudicated i expected) = expected
expected_of (retry_by_policy i d expected) = expected

unfoldable pub serve : Hash → Run → RunRequest → Command Run
serve h r (enter_state target expected) = transition_run h r target expected
serve h r (offer_to id worker authority spec offered_at expires_at expected) =
    offer_assignment h r id worker authority spec offered_at expires_at expected
serve h r (take id worker at expected) = claim_assignment h r id worker at expected
serve h r (begin_attempt id worker key spec attempt_id at expected) =
    started (commit_start h r id worker key spec attempt_id at expected)
serve h r (expire_offer id key at expected) = expire_precommit_assignment h r id key at expected
serve h r (give_back id worker key at expected) =
    release_precommit_assignment h r id worker key at expected
serve h r (ask_cancel key source actor_id reason at expected) =
    request_cancel h r key source actor_id reason at expected
serve h r (move_attempt id target expected m) = transition_current_attempt h r id target expected m
serve h r (lose_attempt id o expected m) = mark_current_attempt_unknown h r id o expected m
serve h r (lose_stop id observation_id at expected m) =
    mark_cancel_stop_unproven h r id observation_id at expected m
serve h r (report_event id e authority worker fence expected m) =
    record_current_attempt_event h r id e authority worker fence expected m
serve h r (finish_attempt id f authority worker fence expected m) =
    finished (finalize_current_attempt_evidence h r id f authority worker fence expected m)
serve h r (finish_cancelled id f stop authority worker fence expected m) =
    finished (finalize_cancelled_attempt_evidence h r id f stop authority worker fence expected m)
serve h r (adjudicate_attempt id j expected m) =
    append_current_unknown_adjudication h r id j expected m
serve h r (retry_adjudicated i expected) = queue_adjudicated_retry h r i expected
serve h r (retry_by_policy i d expected) = queue_policy_retry h r i d expected

started-ok :
    (c : Command CommitStartResult) (v : Run)
    → started c ≡ ok v
    → (d : CommitStartResult) × (c ≡ ok d) × (d.run ≡ v)
started-ok (ok d) v h = (d, refl, ground (arith, h))
started-ok (raised x) v h = ground (arith, h)

finished-ok :
    (c : Command FinalizeResult) (v : Run)
    → finished c ≡ ok v
    → (d : FinalizeResult) × (c ≡ ok d) × (d.run ≡ v)
finished-ok (ok d) v h = (d, refl, ground (arith, h))
finished-ok (raised x) v h = ground (arith, h)

-- Every accepted command of a Run leaves it as it was, or it expected the version that the Run has
-- and makes one of the changes of the step relation, whose result passes the constructor's checks.
-- So no command at a stale version changes a Run.
pub serve-Accepted :
    (sha256 : Hash) (r v : Run) (q : RunRequest)
    → serve sha256 r q ≡ ok v
    → Accepted sha256 r (expected_of q) v
unfolding serve
serve-Accepted h r v (enter_state target expected) e =
    transition_run-Accepted h r v target expected e
serve-Accepted h r v (offer_to id worker authority spec offered_at expires_at expected) e =
    offer_assignment-Accepted h r v id worker authority spec offered_at expires_at expected e
serve-Accepted h r v (take id worker at expected) e =
    claim_assignment-Accepted h r v id worker at expected e
serve-Accepted h r v (begin_attempt id worker key spec attempt_id at expected) e =
    let (d, c, s) = started-ok (commit_start h r id worker key spec attempt_id at expected) v e in
    rw s at (commit_start-Accepted h r d id worker key spec attempt_id at expected c)
serve-Accepted h r v (expire_offer id key at expected) e =
    expire_precommit_assignment-Accepted h r v id key at expected e
serve-Accepted h r v (give_back id worker key at expected) e =
    release_precommit_assignment-Accepted h r v id worker key at expected e
serve-Accepted h r v (ask_cancel key source actor_id reason at expected) e =
    request_cancel-Accepted h r v key source actor_id reason at expected e
serve-Accepted h r v (move_attempt id target expected m) e =
    transition_current_attempt-Accepted h r v id target expected m e
serve-Accepted h r v (lose_attempt id o expected m) e =
    mark_current_attempt_unknown-Accepted h r v id o expected m e
serve-Accepted h r v (lose_stop id observation_id at expected m) e =
    mark_cancel_stop_unproven-Accepted h r v id observation_id at expected m e
serve-Accepted h r v (report_event id x authority worker fence expected m) e =
    record_current_attempt_event-Accepted h r v id x authority worker fence expected m e
serve-Accepted h r v (finish_attempt id f authority worker fence expected m) e =
    let (d, c, s) =
      finished-ok (finalize_current_attempt_evidence h r id f authority worker fence expected m) v
        e in
    rw s at
      (finalize_current_attempt_evidence-Accepted h r d id f authority worker fence expected m c)
serve-Accepted h r v (finish_cancelled id f stop authority worker fence expected m) e =
    let (d, c, s) =
      finished-ok
        (finalize_cancelled_attempt_evidence h r id f stop authority worker fence expected m) v e in
    rw s at (
      finalize_cancelled_attempt_evidence-Accepted h r d id f stop authority worker fence expected m
        c)
serve-Accepted h r v (adjudicate_attempt id j expected m) e =
    append_current_unknown_adjudication-Accepted h r v id j expected m e
serve-Accepted h r v (retry_adjudicated i expected) e =
    queue_adjudicated_retry-Accepted h r v i expected e
serve-Accepted h r v (retry_by_policy i d expected) e =
    queue_policy_retry-Accepted h r v i d expected e
