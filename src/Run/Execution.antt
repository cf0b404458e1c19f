-- ===== src/Run/Execution.antt =====
-- The commands on the current Attempt of a Run.
use qarunner.Prelude.{
  Bool, Option, String, String-discrete, false, holds, if◌then◌else◌, none, not, ok, raise_if,
  raised, some, true, ℕ, ℕ_discrete, ℤ, ◌&&◌, ◌+◌, ◌==◌, ◌>>=◌, ◌>>◌,
}
use qarunner.Values.{
  AttemptAuthority, AttemptAuthority_post_init, AttemptEvent, Command, DateTime, WorkerRef, before,
  digest_eq, evidence_not_ready,
}
use qarunner.Values.Canonical.{Hash}
use qarunner.Attempt.{Attempt, AttemptState}
use qarunner.Attempt.Commands.{mark_unknown, record_event, transition}
use qarunner.Attempt.Finalize.{Facts, FinalizeEvidenceResult, finalize_evidence, finalize_with_stop}
use qarunner.Evidence.Stop.{TrustedCancellationStop}
use qarunner.Evidence.Manifest.{EvidenceManifest}
use qarunner.Cancellation.{CancellationIntent, cancel_intent_digest}
use qarunner.Unknown.{
  UnknownObservation, cancel_convergence, cancel_stop_unproven, observation_post_init,
}
use qarunner.Run.{Run, invalid_run, is_cancelled, is_running, run_cancelled}
use qarunner.Run.Pointers.{stopped_before}
use qarunner.Run.Current.{command_time, current_attempt, expect_version, refused_run, with_latest}
use qarunner.Run.Aggregate.{run_post_init}

abbrev pub attempt_run : Run → Attempt → Run
attempt_run r a = record r { attempts = with_latest r a; version = r.version + 1 }

unfoldable pub store_attempt : Hash → Run → Attempt → ℤ → Command Run
unfolding expect_version
store_attempt sha256 r updated expected = do
  expect_version r expected
  run_post_init sha256 (attempt_run r updated)

-- `updated is current`: each change of an Attempt counts its version up.
abbrev pub unchanged : Attempt → Attempt → Bool
unchanged current updated = updated.version == current.version

-- A repetition leaves the Run as it is.
unfoldable pub store_changed : Hash → Run → Attempt → ℤ → Bool → Command Run
unfolding store_attempt
store_changed sha256 r updated expected true = ok r
store_changed sha256 r updated expected false = store_attempt sha256 r updated expected

unfoldable pub transition_current_attempt :
    Hash
    → Run
    → String
    → AttemptState
    → (expected_version expected_attempt_version : ℤ) → Command Run
unfolding current_attempt transition store_attempt
transition_current_attempt sha256 r id target expected expected_attempt = do
  current ← current_attempt r id
  updated ← transition sha256 current target expected_attempt
  store_attempt sha256 r updated expected

unfoldable pub mark_current_attempt_unknown :
    Hash
    → Run
    → String
    → UnknownObservation
    → (expected_version expected_attempt_version : ℤ) → Command Run
unfolding store_changed
mark_current_attempt_unknown sha256 r id o expected expected_attempt = do
  current ← current_attempt r id
  authority ←
      AttemptAuthority_post_init
        (record { current_fence = r.current_fence; current_worker = current.worker })
  updated ← mark_unknown sha256 current o authority expected_attempt
  store_changed sha256 r updated expected (unchanged current updated)

unfoldable pub record_current_attempt_event :
    Hash
    → Run
    → String
    → AttemptEvent
    → AttemptAuthority
    → WorkerRef
    → ℕ
    → (expected_version expected_attempt_version : ℤ) → Command Run
unfolding store_changed
record_current_attempt_event sha256 r id e authority worker fence expected expected_attempt = do
  current ← current_attempt r id
  updated ← record_event sha256 current e authority worker fence expected_attempt
  store_changed sha256 r updated expected (unchanged current updated)

-- `FinalizeAttemptEvidenceResult` and `FinalizeCancellationEvidenceResult`.
pub record FinalizeResult : Type 0 where
  pub run : Run
  pub attempt : Attempt
  pub evidence : EvidenceManifest
  pub replayed : Bool

-- A replay leaves the Run as it is.
unfoldable pub store_finalized :
    Hash → Run → Attempt → FinalizeEvidenceResult → ℤ → Bool → Command FinalizeResult
unfolding store_attempt
store_finalized sha256 r current done expected true =
    ok (record { run = r; attempt = current; evidence = done.evidence; replayed = true })
store_finalized sha256 r current done expected false = do
  next ← store_attempt sha256 r done.attempt expected
  ok (record { run = next; attempt = done.attempt; evidence = done.evidence; replayed = false })

unfoldable pub finalize_current_attempt_evidence :
    Hash
    → Run
    → String
    → Facts
    → AttemptAuthority
    → WorkerRef
    → ℕ
    → (expected_version expected_attempt_version : ℤ) → Command FinalizeResult
unfolding store_finalized finalize_evidence
finalize_current_attempt_evidence sha256 r id f authority worker fence expected expected_attempt =
    do
      current ← current_attempt r id
      done ← finalize_evidence sha256 current f authority worker fence expected_attempt none
      store_finalized sha256 r current done expected done.replayed

unfoldable pub unproven_observation :
    Hash → Option CancellationIntent → String → DateTime → Command UnknownObservation
unfolding cancel_intent_digest command_time
unproven_observation sha256 none id at =
    raised (invalid_run "cancel_intent" "required_for_cancel_convergence")
unproven_observation sha256 (some c) id at = do
  command_time "recorded_at" at
  raise_if (before at c.recorded_at) (invalid_run "recorded_at" "before_cancel_intent")
  observation_post_init (record {
    id = id;
    reason = cancel_stop_unproven;
    source = cancel_convergence;
    review_basis_digest = cancel_intent_digest sha256 c;
    recorded_at = at;
  })

unfoldable pub mark_cancel_stop_unproven :
    Hash
    → Run
    → (attempt_id observation_id : String) → DateTime
    → (expected_version expected_attempt_version : ℤ) → Command Run
unfolding unproven_observation mark_current_attempt_unknown
mark_cancel_stop_unproven sha256 r id observation_id at expected expected_attempt = do
  o ← unproven_observation sha256 r.cancel_intent observation_id at
  mark_current_attempt_unknown sha256 r id o expected expected_attempt

-- The stop proof is bound to the Run's cancellation intent.
unfoldable pub stop_for_intent :
    Hash → Option CancellationIntent → TrustedCancellationStop → Command (Unit {0})
unfolding cancel_intent_digest
stop_for_intent sha256 none s = raised (evidence_not_ready "cancellation intent is missing")
stop_for_intent sha256 (some c) s = do
  raise_if (not (digest_eq s.cancellation_intent_digest (cancel_intent_digest sha256 c)))
      (evidence_not_ready "cancellation stop proof does not match intent")
  raise_if (stopped_before s c.recorded_at)
      (evidence_not_ready "cancellation stop proof predates the intent")

-- The equality of the dataclasses.
stop_discrete : Discrete TrustedCancellationStop
stop_discrete = hlevel (ℕ_discrete, String-discrete)

abbrev pub converged_run : Run → Attempt → TrustedCancellationStop → Run
converged_run r a s = record r {
  state = run_cancelled;
  version = r.version + 1;
  current_assignment_id = none;
  attempts = with_latest r a;
  cancellation_stop = some s;
}

unfoldable pub converge :
    Hash
    → Run
    → Attempt
    → FinalizeEvidenceResult
    → TrustedCancellationStop
    → ℤ
    → Option TrustedCancellationStop
    → Command FinalizeResult
unfolding stop_discrete expect_version
converge sha256 r current done s expected (some stored) =
    if is_cancelled r.state && holds (stop_discrete stored s) && done.replayed
    then ok (record { run = r; attempt = current; evidence = done.evidence; replayed = true })
    else raised (evidence_not_ready "run cancellation is already converged")
converge sha256 r current done s expected none = do
  expect_version r expected
  raise_if (not (is_running r.state)) (refused_run r run_cancelled expected)
  next ← run_post_init sha256 (converged_run r done.attempt s)
  ok (record { run = next; attempt = done.attempt; evidence = done.evidence; replayed = false })

unfoldable pub finalize_cancelled_attempt_evidence :
    Hash
    → Run
    → String
    → Facts
    → TrustedCancellationStop
    → AttemptAuthority
    → WorkerRef
    → ℕ
    → (expected_version expected_attempt_version : ℤ) → Command FinalizeResult
unfolding stop_for_intent converge
finalize_cancelled_attempt_evidence sha256 r id f s authority worker fence expected
      expected_attempt =
    do
      stop_for_intent sha256 r.cancel_intent s
      current ← current_attempt r id
      done ← finalize_with_stop sha256 current f authority worker fence expected_attempt (some s)
      converge sha256 r current done s expected r.cancellation_stop
