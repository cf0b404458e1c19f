-- ===== src/Finalization/Basis/Payload.antt =====
-- The canonical documents of the decisions and of the basis, and the digest of the basis.
use qarunner.Prelude.{Option, String, pos, ◌>>=◌}
use qarunner.Values.{Command, Digest}
use qarunner.Values.Canonical.{
  Fields, Hash, Json, arr, canonical_digest, digest_json, end, json_items, member, num, num?, obj,
  optional, str,
}
use qarunner.Retry.{fact_value}
use qarunner.Unknown.{decision_value}
use qarunner.Finalization.{
  FinalizationDecisionKind, RunDisposition, TerminalInputKind, contract_rule,
  duplicate_risk_acceptance, input_adjudication, input_prestart, no_retry, platform_retry,
  retry_waiting, review, run_outcome_value, suite_retry, unknown_adjudication,
  verified_cancellation_evidence, verified_evidence,
}
use qarunner.Finalization.Decisions.{
  DecisionResult, RunFinalizationDecisionRef, adjudication_result, retry_result, risk_result,
  rule_result,
}
use qarunner.Finalization.Basis.{RunFinalizationBasis}

abbrev decision_kind_value : FinalizationDecisionKind → String
decision_kind_value contract_rule = "contract_rule"
decision_kind_value suite_retry = "suite_retry"
decision_kind_value platform_retry = "platform_retry"
decision_kind_value unknown_adjudication = "unknown_adjudication"
decision_kind_value duplicate_risk_acceptance = "duplicate_risk_acceptance"

abbrev disposition_value : RunDisposition → String
disposition_value review = "review_required"
disposition_value retry_waiting = "retry_queued"
disposition_value no_retry = "closed_no_retry"

abbrev input_kind_value : TerminalInputKind → String
input_kind_value verified_evidence = "verified_evidence"
input_kind_value verified_cancellation_evidence = "verified_cancellation_evidence"
input_kind_value input_prestart = "prestart_cancel"
input_kind_value input_adjudication = "unknown_adjudication"

abbrev digest? : Option Digest → Json
digest? = optional digest_json

-- `_result_payload`.
abbrev result_json : DecisionResult → Json
result_json (rule_result r) = obj (
    member "outcome" (str (run_outcome_value r.outcome)) (
      member "cancellation_intent_digest" (digest? r.cancellation_intent_digest) (
        member "cancellation_stop_digest" (digest? r.cancellation_stop_digest)
          (member "prestart_closure_digest" (digest? r.prestart_closure_digest) end))))
result_json (retry_result r) = obj (
    member "retry_intent_digest" (digest_json r.retry_intent_digest) (
      member "retry_decision_digest" (digest_json r.retry_decision_digest) (
        member "retry_authority_digest" (digest_json r.retry_authority_digest) (
          member "target_attempt_id" (str r.target_attempt_id) (
            member "target_attempt_no" (num (pos r.target_attempt_no)) (
              member "target_attempt_fence" (num (pos r.target_attempt_fence))
                (member "target_item_set_digest" (digest_json r.target_item_set_digest) end)))))))
result_json (adjudication_result r) = obj (
    member "adjudication_digest" (digest_json r.adjudication_digest) (
      member "decision" (str (decision_value r.decision)) (
        member "evidence_root_digest" (digest? r.evidence_root_digest) (
          member "proof_digest" (digest? r.proof_digest)
            (member "risk_acceptance_digest" (digest? r.risk_acceptance_digest) end)))))
result_json (risk_result r) =
    obj (member "risk_acceptance_digest" (digest_json r.risk_acceptance_digest) end)

-- `RunFinalizationDecisionRef.canonical_payload`.
abbrev decision_ref_json : RunFinalizationDecisionRef → Json
decision_ref_json d = obj (
    member "sequence" (num (pos d.sequence)) (
      member "decision_kind" (str (decision_kind_value d.decision_kind)) (
        member "decision_schema" (str d.decision_schema) (
          member "decision_id" (str d.decision_id) (
            member "decision_version" (num (pos d.decision_version)) (
              member "decision_digest" (digest_json d.decision_digest) (
                member "source_attempt_id" (optional str d.source_attempt_id) (
                  member "source_attempt_no" (num? d.source_attempt_no) (
                    member "source_attempt_fence" (num? d.source_attempt_fence) (
                      member "source_item_set_digest" (digest? d.source_item_set_digest)
                        (member "decision_result" (result_json d.decision_result) end)))))))))))

-- `RunFinalizationBasis.canonical_payload`, from its end.
abbrev closing_fields : RunFinalizationBasis → Digest → Fields
closing_fields b chain =
    member "decision_chain" (arr (json_items decision_ref_json b.values.decision_chain)) (
      member "disposition" (str (disposition_value b.values.disposition)) (
        member "outcome" (str (run_outcome_value b.values.outcome)) (
          member "terminal_input_kind" (str (input_kind_value b.values.terminal_input_kind)) (
            member "item_resolution_schema" (str "qep.run-item-resolution-set") (
              member "item_resolution_version" (num (pos 1))
                (member "decision_chain_digest" (digest_json chain) end))))))

abbrev digest_fields : RunFinalizationBasis → Digest → Fields
digest_fields b chain = member "attempt_chain_digest" (digest? b.attempt_chain_digest) (
    member "evidence_root_digest" (digest? b.values.evidence_root_digest) (
      member "unknown_observation_digest" (digest? b.values.unknown_observation_digest) (
        member "adjudication_chain_digest" (digest? b.adjudication_chain_digest) (
          member "retry_chain_digest" (digest? b.retry_chain_digest) (
            member "item_resolution_set_digest" (digest_json b.item_resolution_set_digest) (
              member "original_resolution_set_digest" (digest_json b.original_resolution_set_digest)
                (member "effective_resolution_set_digest"
                  (digest_json b.effective_resolution_set_digest)
                  (member "item_count" (num (pos b.item_count)) (
                    member "cancellation_intent_digest"
                      (digest? b.values.cancellation_intent_digest)
                      (member "cancellation_stop_digest" (digest? b.values.cancellation_stop_digest)
                        (member "prestart_closure_digest" (digest? b.values.prestart_closure_digest)
                          (member "terminal_rule_schema" (str b.values.terminal_rule_schema) (
                            member "terminal_rule_version"
                              (num (pos b.values.terminal_rule_version))
                              (member "terminal_rule_digest"
                                (digest_json b.values.terminal_rule_digest)
                                (closing_fields b chain)))))))))))))))

abbrev attempt_fields : RunFinalizationBasis → Digest → Fields
attempt_fields b chain = member "original_attempt_id" (optional str b.values.original_attempt_id) (
    member "original_attempt_fence" (num? b.values.original_attempt_fence) (
      member "final_attempt_id" (optional str b.values.final_attempt_id) (
        member "final_attempt_no" (num? b.values.final_attempt_no) (
          member "final_attempt_fence" (num? b.values.final_attempt_fence) (
            member "final_attempt_version" (num? b.values.final_attempt_version) (
              member "final_attempt_state"
                (optional (λ f. str (fact_value f)) b.values.final_attempt_state)
                (member "worker_id" (optional str b.values.worker_id) (
                  member "worker_generation" (num? b.values.worker_generation)
                    (digest_fields b chain)))))))))

abbrev basis_json : RunFinalizationBasis → Digest → Json
basis_json b chain = obj (
    member "schema_version" (str "qep.run-finalization-basis.v1") (
      member "run_id" (str b.run_id) (
        member "batch_id" (str b.batch_id) (
          member "source_run_version" (num (pos b.source_run_version)) (
            member "manifest_digest" (digest_json b.manifest_digest) (
              member "shard_plan_digest" (digest_json b.shard_plan_digest) (
                member "run_item_set_digest" (digest_json b.run_item_set_digest) (
                  member "execution_spec_digest" (digest_json b.values.execution_spec_digest)
                    (attempt_fields b chain)))))))))

unfoldable pub basis_digest : Hash → RunFinalizationBasis → Command Digest
unfolding canonical_digest
basis_digest sha256 b = do
  chain ←
      canonical_digest sha256 "qep.run-finalization-decision-chain.v1"
        (obj (member "decisions" (arr (json_items decision_ref_json b.values.decision_chain)) end))
  canonical_digest sha256 "qep.run-finalization-basis.v1" (basis_json b chain)
