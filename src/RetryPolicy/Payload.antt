-- ===== src/RetryPolicy/Payload.antt =====
-- The canonical document of a retry decision, and its digest.
use qarunner.Prelude.{String, pos}
use qarunner.Values.{Command, Digest}
use qarunner.Values.Canonical.{
  Fields, Hash, Json, canonical_digest, digest_json, end, member, null, num, obj, optional, str,
  time,
}
use qarunner.Retry.{fact_value, kind_value}
use qarunner.RetryPolicy.{
  RetryBudget, RetryBudgetUsage, RetryDecision, RetryRequestedBudget, RunRetryDecision,
  closed_no_retry, retry,
}

abbrev retry_decision_value : RetryDecision → String
retry_decision_value retry = "retry"
retry_decision_value closed_no_retry = "closed_no_retry"

abbrev pub budget_json : RetryBudget → Json
budget_json b = obj (
    member "max_retries" (num (pos b.max_retries)) (
      member "max_execution_seconds" (num (pos b.max_execution_seconds))
        (member "max_resource_unit_seconds" (num (pos b.max_resource_unit_seconds)) end)))

abbrev pub usage_json : RetryBudgetUsage → Json
usage_json b = obj (
    member "retry_count" (num (pos b.retry_count)) (
      member "execution_seconds" (num (pos b.execution_seconds))
        (member "resource_unit_seconds" (num (pos b.resource_unit_seconds)) end)))

abbrev pub requested_json : RetryRequestedBudget → Json
requested_json b = obj (
    member "execution_seconds" (num (pos b.execution_seconds))
      (member "resource_unit_seconds" (num (pos b.resource_unit_seconds)) end))

-- `canonical_payload`, from its end. The scope has one value only.
abbrev snapshot_json : RunRetryDecision → Json
snapshot_json d = obj (
    member "configured" (budget_json d.budget)
      (member "usage" (usage_json d.usage) (member "requested" (requested_json d.requested) end)))

abbrev authority_fields : RunRetryDecision → Fields
authority_fields d = member "authority_schema" (optional str d.authority_schema) (
    member "authority_id" (optional str d.authority_id) (
      member "authority_version" (optional (λ n. num (pos n)) d.authority_version) (
        member "authority_digest" (optional digest_json d.authority_digest) (
          member "policy_digest" (optional digest_json d.policy_digest) (
            member "adjudication_digest" null (
              member "prior_execution_stop_digest"
                (optional digest_json d.prior_execution_stop_digest)
                (member "duplicate_risk_acceptance_digest" null (
                  member "attempt_budget_snapshot" (snapshot_json d)
                    (member "decided_at" (time d.decided_at) end)))))))))

abbrev decision_fields : RunRetryDecision → Fields
decision_fields d = member "decision" (str (retry_decision_value d.decision)) (
    member "decision_source_kind" (str (kind_value d.decision_source_kind)) (
      member "reason_class" (str d.reason_class) (
        member "reason_code" (str d.reason_code) (
          member "retry_intent_digest" (optional digest_json d.retry_intent_digest)
            (authority_fields d)))))

abbrev pub decision_json : RunRetryDecision → Json
decision_json d = obj (
    member "run_id" (str d.source.run_id) (
      member "source_run_version" (num (pos d.source.run_version)) (
        member "source_attempt_id" (str d.source.attempt_id) (
          member "source_attempt_no" (num (pos d.source.attempt_no)) (
            member "source_attempt_fence" (num (pos d.source.attempt_fence)) (
              member "source_outcome" (str (fact_value d.source.outcome)) (
                member "source_item_resolution_set_digest"
                  (digest_json d.source.item_resolution_set_digest)
                  (member "source_item_set_digest" (digest_json d.source.source_item_set_digest) (
                    member "target_item_set_digest" (digest_json d.source.target_item_set_digest)
                      (member "retry_scope" (str "full_run") (decision_fields d)))))))))))

-- `decision_digest`.
unfoldable pub retry_decision_digest : Hash → RunRetryDecision → Command Digest
unfolding canonical_digest
retry_decision_digest sha256 d =
    canonical_digest sha256 "qep.run-retry-decision.v1" (decision_json d)
