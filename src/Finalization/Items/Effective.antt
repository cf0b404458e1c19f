-- ===== src/Finalization/Items/Effective.antt =====
-- `EffectiveItemResolution`: what takes effect for an item.
use qarunner.Prelude.{
  Bool, Option, String, differ, false, is_some, none, not, ok, raise_if, raised, some, true, ◌&&◌,
  ◌>>◌,
}
use qarunner.Values.{Command, Digest, invalid}
use qarunner.Unknown.{
  UnknownAdjudicationDecision, mark_completed_from_verified_evidence, mark_infra_failed_no_retry,
  permits_retry,
}
use qarunner.Finalization.{
  EffectiveSourceKind, RunOutcome, authorized_retry, forbid_present, original_source,
  outcome_infra_failed, require_digest, source_adjudication,
}
use qarunner.Finalization.Items.{
  Projection, require_attempt_identity, validate_fact_and_mapping,
  validate_optional_attempt_identity,
}

pub record EffectiveItemResolution : Type 0 where
  pub source_kind : EffectiveSourceKind
  pub fields : Projection
  pub outcome : RunOutcome
  pub retry_intent_digest : Option Digest
  pub retry_decision_digest : Option Digest
  pub retry_authority_digest : Option Digest
  pub adjudication_digest : Option Digest
  pub adjudication_decision : Option UnknownAdjudicationDecision

abbrev entity : String
entity = "effective_item_resolution"

abbrev pub is_infra_failed : RunOutcome → Bool
is_infra_failed outcome_infra_failed = true
is_infra_failed _ = false

abbrev pub permits : Option UnknownAdjudicationDecision → Bool
permits none = false
permits (some d) = permits_retry d

unfoldable pub forbid_retry : EffectiveItemResolution → Command (Unit {0})
forbid_retry r = do
  forbid_present entity "retry_intent_digest" r.retry_intent_digest
  forbid_present entity "retry_decision_digest" r.retry_decision_digest
  forbid_present entity "retry_authority_digest" r.retry_authority_digest

unfoldable pub require_retry : EffectiveItemResolution → Command (Unit {0})
require_retry r = do
  require_digest entity "retry_intent_digest" r.retry_intent_digest
  require_digest entity "retry_decision_digest" r.retry_decision_digest
  require_digest entity "retry_authority_digest" r.retry_authority_digest

-- The checks of the decision that resolved an unknown Attempt.
unfoldable pub adjudicated_check :
    Option UnknownAdjudicationDecision → EffectiveItemResolution → Command (Unit {0})
adjudicated_check (some mark_infra_failed_no_retry) r = do
  raise_if (not (is_infra_failed r.outcome))
      (invalid entity "outcome" "infra_adjudication_requires_infra")
  forbid_present entity "evidence_root_digest" r.fields.evidence_root_digest
  forbid_present entity "result_mapping_schema" r.fields.result_mapping_schema
  forbid_present entity "result_mapping_version" r.fields.result_mapping_version
  forbid_present entity "result_mapping_digest" r.fields.result_mapping_digest
adjudicated_check (some mark_completed_from_verified_evidence) r =
    require_digest entity "evidence_root_digest" r.fields.evidence_root_digest
adjudicated_check _ r = raised (invalid entity "adjudication_decision" "invalid_for_resolution")

unfoldable pub effective_check : EffectiveSourceKind → EffectiveItemResolution → Command (Unit {0})
unfolding validate_optional_attempt_identity require_attempt_identity forbid_retry require_retry
    adjudicated_check
effective_check original_source r = do
  validate_optional_attempt_identity entity r.fields
  forbid_retry r
  forbid_present entity "adjudication_digest" r.adjudication_digest
  forbid_present entity "adjudication_decision" r.adjudication_decision
effective_check authorized_retry r = do
  require_attempt_identity entity r.fields
  require_retry r
  raise_if (differ (is_some r.adjudication_digest) (is_some r.adjudication_decision))
      (invalid entity "adjudication_digest" "decision_all_or_none")
  raise_if (is_some r.adjudication_digest && not (permits r.adjudication_decision))
      (invalid entity "adjudication_decision" "does_not_permit_retry")
effective_check source_adjudication r = do
  require_attempt_identity entity r.fields
  forbid_retry r
  require_digest entity "adjudication_digest" r.adjudication_digest
  adjudicated_check r.adjudication_decision r

unfoldable pub effective_post_init : EffectiveItemResolution → Command EffectiveItemResolution
unfolding validate_fact_and_mapping effective_check
effective_post_init r = do
  validate_fact_and_mapping entity r.fields
  effective_check r.source_kind r
  ok r
