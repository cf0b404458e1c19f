-- ===== src/Evidence/Payload.antt =====
-- The canonical document of an Attempt's evidence, as `build_evidence_manifest` and
-- `_case_summary_payload` write it.
use qarunner.Prelude.{List, Option, String, [], pos, ℕ, ◌∷◌}
use qarunner.Values.{Digest, WorkerRef}
use qarunner.Values.Canonical.{
  Fields, Items, Json, arr, bool, digest_json, end, item, member, nil, num, obj, optional, str,
  time, worker_json,
}
use qarunner.Evidence.Stop.{TrustedCancellationStop}
use qarunner.Evidence.Classify.{
  EvidenceOutcome, PlatformExitClass, TrustedExitFacts, ValidatedCaseSummary,
}
use qarunner.Evidence.Ordering.{
  ArtifactClass, VerifiedArtifact, diagnostic, log, report, screenshot, structured_result, trace,
  video,
}

-- What an Attempt is known by in its evidence.
pub record Subject : Type 0 where
  pub attempt_id : String
  pub run_id : String
  pub attempt_no : ℕ
  pub assignment_id : String
  pub fence : ℕ
  pub worker : WorkerRef
  pub execution_spec_digest : Digest

abbrev pub class_value : ArtifactClass → String
class_value structured_result = "structured_result"
class_value log = "log"
class_value screenshot = "screenshot"
class_value video = "video"
class_value trace = "trace"
class_value report = "report"
class_value diagnostic = "diagnostic"

abbrev pub exit_value : PlatformExitClass → String
exit_value PlatformExitClass.completed = "completed"
exit_value PlatformExitClass.infra_failed = "infra_failed"
exit_value PlatformExitClass.cancelled = "cancelled"

abbrev pub outcome_value : EvidenceOutcome → String
outcome_value EvidenceOutcome.passed = "passed"
outcome_value EvidenceOutcome.test_failed = "test_failed"
outcome_value EvidenceOutcome.infra_failed = "infra_failed"
outcome_value EvidenceOutcome.cancelled = "cancelled"

-- `_case_summary_payload`.
unfoldable pub summary_json : ValidatedCaseSummary → Json
summary_json s = obj (
    member "schema_version" (str s.schema_version) (
      member "source_artifact_path" (str s.source_artifact_path.value) (
        member "source_artifact_digest" (digest_json s.source_artifact_digest) (
          member "expected" (num (pos s.expected)) (
            member "passed" (num (pos s.passed)) (
              member "failed" (num (pos s.failed)) (
                member "skipped" (num (pos s.skipped)) (
                  member "not_reported" (num (pos s.not_reported))
                    (member "unexpected" (num (pos s.unexpected)) end)))))))))

unfoldable pub artifacts_json : List VerifiedArtifact → Items
artifacts_json [] = nil
artifacts_json (a ∷ l) =
    item
      (obj (
        member "path" (str a.path.value) (
          member "class" (str (class_value a.content_class)) (
            member "size_bytes" (num (pos a.size_bytes))
              (member "digest" (digest_json a.digest) end)))))
      (artifacts_json l)

unfoldable pub exit_json : TrustedExitFacts → Json
exit_json e = obj (
    member "source_event_id" (str e.source_event_id) (
      member "pid" (optional num e.pid) (
        member "class" (str (exit_value e.exit_class)) (
          member "exit_code" (optional num e.exit_code) (
            member "signal" (optional num e.signal)
              (member "oom" (bool e.oom) (member "timeout" (bool e.timeout) end)))))))

-- The part of the document that a cancellation adds.
unfoldable pub stop_json : Digest → TrustedCancellationStop → Fields
stop_json proof s =
    member "cancellation_stop"
      (obj (
        member "proof_digest" (digest_json proof) (
          member "cancellation_intent_digest" (digest_json s.cancellation_intent_digest) (
            member "source_event_id" (str s.source_event_id) (
              member "process_stopped_at" (time s.process_stopped_at) (
                member "sut_access_stopped_at" (time s.sut_access_stopped_at)
                  (member "recorded_at" (time s.recorded_at) end)))))))
      end

unfoldable pub payload_json :
    Subject
    → TrustedExitFacts
    → Option ValidatedCaseSummary
    → List VerifiedArtifact
    → EvidenceOutcome
    → Fields
    → Json
unfolding summary_json artifacts_json exit_json
payload_json a e summary ordered outcome more = obj (
    member "attempt"
      (obj (
        member "assignment_id" (str a.assignment_id) (
          member "attempt_id" (str a.attempt_id) (
            member "attempt_no" (num (pos a.attempt_no))
              (member "fence" (num (pos a.fence)) (member "run_id" (str a.run_id) end))))))
      (member "worker" (worker_json a.worker) (
        member "input"
          (obj (member "execution_spec_digest" (digest_json a.execution_spec_digest) end))
          (member "platform_exit" (exit_json e) (
            member "case_summary" (optional summary_json summary) (
              member "artifacts" (arr (artifacts_json ordered)) (
                member "classification"
                  (obj (
                    member "schema_version" (str "qep.attempt-classification.v1")
                      (member "outcome" (str (outcome_value outcome)) end)))
                  more)))))))
