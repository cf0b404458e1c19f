-- ===== src/Evidence/Stop.antt =====
-- `TrustedCancellationStop` of domain/cancellation.py: the proof that an execution and its access
-- to the tested system have both stopped.
use qarunner.Prelude.{String, is_blank, ok, pos, raise_if, ℕ, ◌==◌, ◌>>◌, ◌||◌}
use qarunner.Values.{Command, DateTime, Digest, WorkerRef, before, invalid, require_utc}
use qarunner.Values.Canonical.{
  Hash, canonical_digest, digest_json, end, member, num, obj, str, time, worker_json,
}

pub record TrustedCancellationStop : Type 0 where
  pub run_id : String
  pub attempt_id : String
  pub fence : ℕ
  pub worker : WorkerRef
  pub cancellation_intent_digest : Digest
  pub source_event_id : String
  pub process_stopped_at : DateTime
  pub sut_access_stopped_at : DateTime
  pub recorded_at : DateTime

unfoldable pub stop_post_init : TrustedCancellationStop → Command TrustedCancellationStop
unfolding require_utc
stop_post_init s = do
  raise_if (is_blank s.run_id) (invalid "trusted_cancellation_stop" "run_id" "empty")
  raise_if (is_blank s.attempt_id) (invalid "trusted_cancellation_stop" "attempt_id" "empty")
  raise_if (is_blank s.source_event_id)
      (invalid "trusted_cancellation_stop" "source_event_id" "empty")
  raise_if (s.fence == 0) (invalid "trusted_cancellation_stop" "fence" "not_positive")
  require_utc "trusted_cancellation_stop" "process_stopped_at" s.process_stopped_at
  require_utc "trusted_cancellation_stop" "sut_access_stopped_at" s.sut_access_stopped_at
  require_utc "trusted_cancellation_stop" "recorded_at" s.recorded_at
  raise_if
      (before s.recorded_at s.process_stopped_at || before s.recorded_at s.sut_access_stopped_at)
      (invalid "trusted_cancellation_stop" "recorded_at" "before_stop_facts")
  ok s

unfoldable pub stop_digest : Hash → TrustedCancellationStop → Command Digest
unfolding canonical_digest
stop_digest sha256 s = canonical_digest sha256 "qep.trusted-cancellation-stop.v1" (
    obj (
      member "run_id" (str s.run_id) (
        member "attempt_id" (str s.attempt_id) (
          member "fence" (num (pos s.fence)) (
            member "worker" (worker_json s.worker) (
              member "cancellation_intent_digest" (digest_json s.cancellation_intent_digest) (
                member "source_event_id" (str s.source_event_id) (
                  member "process_stopped_at" (time s.process_stopped_at) (
                    member "sut_access_stopped_at" (time s.sut_access_stopped_at)
                      (member "recorded_at" (time s.recorded_at) end))))))))))
