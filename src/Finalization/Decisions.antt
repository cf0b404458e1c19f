-- ===== src/Finalization/Decisions.antt =====
-- The decisions that a finalization refers to, with their results.
use qarunner.Prelude.{
  Bool, Option, String, false, is_some, not, ok, raise_if, some, true, ℕ, ◌&&◌, ◌>>◌, ◌||◌,
}
use qarunner.Values.{Command, Digest, digest_eq, invalid}
use qarunner.Unknown.{UnknownAdjudicationDecision}
use qarunner.Finalization.{
  FinalizationDecisionKind, RunOutcome, contract_rule, duplicate_risk_acceptance, platform_retry,
  require_positive_int, require_string, suite_retry, unknown_adjudication,
}

pub record ContractRuleResultRef : Type 0 where
  pub outcome : RunOutcome
  pub cancellation_intent_digest : Option Digest
  pub cancellation_stop_digest : Option Digest
  pub prestart_closure_digest : Option Digest

pub record RetryDecisionResultRef : Type 0 where
  pub retry_intent_digest : Digest
  pub retry_decision_digest : Digest
  pub retry_authority_digest : Digest
  pub target_attempt_id : String
  pub target_attempt_no : ℕ
  pub target_attempt_fence : ℕ
  pub target_item_set_digest : Digest

pub record UnknownAdjudicationResultRef : Type 0 where
  pub adjudication_digest : Digest
  pub decision : UnknownAdjudicationDecision
  pub evidence_root_digest : Option Digest
  pub proof_digest : Option Digest
  pub risk_acceptance_digest : Option Digest

pub record DuplicateRiskAcceptanceResultRef : Type 0 where
  pub risk_acceptance_digest : Digest

unfoldable pub retry_result_post_init : RetryDecisionResultRef → Command RetryDecisionResultRef
retry_result_post_init r = do
  require_string "retry_decision_result_ref" "target_attempt_id" (some r.target_attempt_id)
  require_positive_int "retry_decision_result_ref" "target_attempt_no" (some r.target_attempt_no)
  require_positive_int "retry_decision_result_ref" "target_attempt_fence"
      (some r.target_attempt_fence)
  ok r

pub data DecisionResult : Type 0 where
  rule_result : ContractRuleResultRef → DecisionResult
  retry_result : RetryDecisionResultRef → DecisionResult
  adjudication_result : UnknownAdjudicationResultRef → DecisionResult
  risk_result : DuplicateRiskAcceptanceResultRef → DecisionResult

pub record RunFinalizationDecisionRef : Type 0 where
  pub sequence : ℕ
  pub decision_kind : FinalizationDecisionKind
  pub decision_schema : String
  pub decision_id : String
  pub decision_version : ℕ
  pub decision_digest : Digest
  pub decision_result : DecisionResult
  pub source_attempt_id : Option String
  pub source_attempt_no : Option ℕ
  pub source_attempt_fence : Option ℕ
  pub source_item_set_digest : Option Digest

-- `isinstance(decision_result, expected[decision_kind])`.
abbrev pub kind_matches : FinalizationDecisionKind → DecisionResult → Bool
kind_matches contract_rule (rule_result _) = true
kind_matches suite_retry (retry_result _) = true
kind_matches platform_retry (retry_result _) = true
kind_matches unknown_adjudication (adjudication_result _) = true
kind_matches duplicate_risk_acceptance (risk_result _) = true
kind_matches _ _ = false

abbrev retry_digest_differs : Digest → DecisionResult → Bool
retry_digest_differs digest (retry_result r) = not (digest_eq r.retry_decision_digest digest)
retry_digest_differs digest _ = false

abbrev entity : String
entity = "run_finalization_decision_ref"

abbrev any_source : RunFinalizationDecisionRef → Bool
any_source d =
    is_some d.source_attempt_id
    || is_some d.source_attempt_no
    || is_some d.source_attempt_fence
    || is_some d.source_item_set_digest

abbrev pub all_source : RunFinalizationDecisionRef → Bool
all_source d =
    is_some d.source_attempt_id
    && is_some d.source_attempt_no
    && is_some d.source_attempt_fence
    && is_some d.source_item_set_digest

-- The checks that are made when all four fields are given.
abbrev decision_source_check : Bool → RunFinalizationDecisionRef → Command (Unit {0})
decision_source_check false d = ok tt
decision_source_check true d = do
  require_string entity "source_attempt_id" d.source_attempt_id
  require_positive_int entity "source_attempt_no" d.source_attempt_no
  require_positive_int entity "source_attempt_fence" d.source_attempt_fence

unfoldable pub decision_post_init : RunFinalizationDecisionRef → Command RunFinalizationDecisionRef
decision_post_init d = do
  require_positive_int entity "sequence" (some d.sequence)
  require_string entity "decision_schema" (some d.decision_schema)
  require_string entity "decision_id" (some d.decision_id)
  require_positive_int entity "decision_version" (some d.decision_version)
  raise_if (not (kind_matches d.decision_kind d.decision_result))
      (invalid entity "decision_result" "kind_mismatch")
  raise_if (retry_digest_differs d.decision_digest d.decision_result)
      (invalid entity "decision_result" "decision_digest_mismatch")
  raise_if (any_source d && not (all_source d)) (invalid entity "source_attempt" "all_or_none")
  decision_source_check (all_source d) d
  ok d
