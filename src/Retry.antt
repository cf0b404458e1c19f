-- ===== src/Retry.antt =====
-- domain/retry.py: the authority for a retry, the intent that records it, and the provenance that
-- the retried Attempt carries.
pub mod Policy
mod Examples
use qarunner.Prelude.{
  Bool, String, String-discrete, false, is_blank, not, ok, pos, raise_if, true, ℕ, ℕ_discrete, ◌==◌,
  ◌>>=◌, ◌>>◌,
}
use qarunner.Values.{Command, DateTime, Digest, DomainError, digest_eq, invalid, require_utc}
use qarunner.Values.Canonical.{
  Hash, Json, canonical_digest, digest_json, end, member, num, obj, str, time,
}
use qarunner.Unknown.{
  UnknownAdjudicationDecision, accept_duplicate_risk_then_retry, adjudication_digest,
  confirm_stopped_then_retry, mark_completed_from_verified_evidence, mark_infra_failed_no_retry,
}

pub data RetryPolicyFamily : Type 0 where
  suite : RetryPolicyFamily
  platform : RetryPolicyFamily

pub data RetryDecisionSourceKind : Type 0 where
  suite_policy : RetryDecisionSourceKind
  platform_policy : RetryDecisionSourceKind

-- `AttemptExecutionFact` of domain/run_finalization.py.
pub data AttemptExecutionFact : Type 0 where
  fact_passed : AttemptExecutionFact
  fact_test_failed : AttemptExecutionFact
  fact_infra_failed : AttemptExecutionFact
  fact_cancelled : AttemptExecutionFact
  fact_unknown : AttemptExecutionFact

pub record UnknownAdjudicationRetryAuthority : Type 0 where
  pub adjudication_id : String
  pub adjudication_digest : Digest
  pub decision : UnknownAdjudicationDecision

pub record PolicyRetryAuthority : Type 0 where
  pub family : RetryPolicyFamily
  pub decision_source_kind : RetryDecisionSourceKind
  pub policy_digest : Digest
  pub authority_schema : String
  pub authority_id : String
  pub authority_version : ℕ
  pub authority_digest : Digest
  pub source_outcome : AttemptExecutionFact
  pub item_resolution_set_digest : Digest
  pub source_item_set_digest : Digest
  pub target_item_set_digest : Digest

unknown_authority_post_init :
    UnknownAdjudicationRetryAuthority → Command UnknownAdjudicationRetryAuthority
unknown_authority_post_init u = do
  raise_if (is_blank u.adjudication_id)
      (invalid "unknown_retry_authority" "adjudication_id" "empty")
  ok u

-- `decision_source_kind is expected`.
abbrev kind_fits : RetryPolicyFamily → RetryDecisionSourceKind → Bool
kind_fits suite suite_policy = true
kind_fits platform platform_policy = true
kind_fits _ _ = false

-- `source_outcome is expected_outcome`.
abbrev outcome_fits : RetryPolicyFamily → AttemptExecutionFact → Bool
outcome_fits suite fact_test_failed = true
outcome_fits platform fact_infra_failed = true
outcome_fits _ _ = false

abbrev bad_policy : String → String → DomainError
bad_policy = invalid "policy_retry_authority"

pub policy_authority_post_init : PolicyRetryAuthority → Command PolicyRetryAuthority
policy_authority_post_init p = do
  raise_if (not (kind_fits p.family p.decision_source_kind))
      (bad_policy "decision_source_kind" "family_mismatch")
  raise_if (not (outcome_fits p.family p.source_outcome))
      (bad_policy "source_outcome" "family_mismatch")
  raise_if (is_blank p.authority_schema) (bad_policy "authority_schema" "empty")
  raise_if (is_blank p.authority_id) (bad_policy "authority_id" "empty")
  raise_if (p.authority_version == 0) (bad_policy "authority_version" "not_positive")
  raise_if (not (digest_eq p.source_item_set_digest p.target_item_set_digest))
      (bad_policy "target_item_set_digest" "full_run_scope_mismatch")
  ok p

pub data RetryAuthority : Type 0 where
  adjudicated : UnknownAdjudicationRetryAuthority → RetryAuthority
  by_policy : PolicyRetryAuthority → RetryAuthority

abbrev family_value : RetryPolicyFamily → String
family_value suite = "suite"
family_value platform = "platform"

abbrev pub kind_value : RetryDecisionSourceKind → String
kind_value suite_policy = "suite_policy"
kind_value platform_policy = "platform_policy"

abbrev pub fact_value : AttemptExecutionFact → String
fact_value fact_passed = "passed"
fact_value fact_test_failed = "test_failed"
fact_value fact_infra_failed = "infra_failed"
fact_value fact_cancelled = "cancelled"
fact_value fact_unknown = "attempt_unknown"

abbrev decision_value : UnknownAdjudicationDecision → String
decision_value confirm_stopped_then_retry = "confirm_stopped_then_retry"
decision_value accept_duplicate_risk_then_retry = "accept_duplicate_risk_then_retry"
decision_value mark_infra_failed_no_retry = "mark_infra_failed_no_retry"
decision_value mark_completed_from_verified_evidence = "mark_completed_from_verified_evidence"

-- `canonical_payload`.
unfoldable pub authority_json : RetryAuthority → Json
authority_json (adjudicated u) = obj (
    member "kind" (str "unknown_adjudication") (
      member "adjudication_id" (str u.adjudication_id) (
        member "adjudication_digest" (digest_json u.adjudication_digest)
          (member "decision" (str (decision_value u.decision)) end))))
authority_json (by_policy p) = obj (
    member "kind" (str "policy") (
      member "family" (str (family_value p.family)) (
        member "decision_source_kind" (str (kind_value p.decision_source_kind)) (
          member "policy_digest" (digest_json p.policy_digest) (
            member "authority_schema" (str p.authority_schema) (
              member "authority_id" (str p.authority_id) (
                member "authority_version" (num (pos p.authority_version)) (
                  member "authority_digest" (digest_json p.authority_digest) (
                    member "source_outcome" (str (fact_value p.source_outcome)) (
                      member "item_resolution_set_digest" (digest_json p.item_resolution_set_digest)
                        (member "source_item_set_digest" (digest_json p.source_item_set_digest) (
                          member "target_item_set_digest" (digest_json p.target_item_set_digest)
                            end))))))))))))

pub record RetryIntent : Type 0 where
  pub id : String
  pub run_id : String
  pub source_attempt_id : String
  pub source_attempt_no : ℕ
  pub source_fence : ℕ
  pub authority : RetryAuthority
  pub execution_spec_digest : Digest
  pub created_at : DateTime

pub intent_post_init : RetryIntent → Command RetryIntent
unfolding require_utc
intent_post_init i = do
  raise_if (is_blank i.id) (invalid "retry_intent" "id" "empty")
  raise_if (is_blank i.run_id) (invalid "retry_intent" "run_id" "empty")
  raise_if (is_blank i.source_attempt_id) (invalid "retry_intent" "source_attempt_id" "empty")
  raise_if (i.source_attempt_no == 0) (invalid "retry_intent" "source_attempt_no" "not_positive")
  raise_if (i.source_fence == 0) (invalid "retry_intent" "source_fence" "not_positive")
  require_utc "retry_intent" "created_at" i.created_at
  ok i

-- `RetryIntent.from_unknown_adjudication`; the fields that it passes on are written out.
pub from_unknown_adjudication :
    (adjudication_id : String) (adjudication_digest : Digest)
    (decision : UnknownAdjudicationDecision) (id run_id source_attempt_id : String)
    (source_attempt_no source_fence : ℕ) (execution_spec_digest : Digest) (created_at : DateTime)
    → Command RetryIntent
unfolding unknown_authority_post_init intent_post_init
from_unknown_adjudication adjudication_id adjudication_digest decision id run_id source_attempt_id
      source_attempt_no source_fence execution_spec_digest created_at =
    do
      authority ← unknown_authority_post_init (record {
        adjudication_id = adjudication_id;
        adjudication_digest = adjudication_digest;
        decision = decision;
      })
      intent_post_init (record {
        id = id;
        run_id = run_id;
        source_attempt_id = source_attempt_id;
        source_attempt_no = source_attempt_no;
        source_fence = source_fence;
        authority = adjudicated authority;
        execution_spec_digest = execution_spec_digest;
        created_at = created_at;
      })

unfoldable pub intent_digest : Hash → RetryIntent → Command Digest
unfolding canonical_digest authority_json
intent_digest sha256 i = canonical_digest sha256 "qep.retry-intent.v2" (
    obj (
      member "id" (str i.id) (
        member "run_id" (str i.run_id) (
          member "source_attempt_id" (str i.source_attempt_id) (
            member "source_attempt_no" (num (pos i.source_attempt_no)) (
              member "source_fence" (num (pos i.source_fence)) (
                member "authority" (authority_json i.authority) (
                  member "execution_spec_digest" (digest_json i.execution_spec_digest)
                    (member "created_at" (time i.created_at) end)))))))))

pub record RetryProvenance : Type 0 where
  pub retry_intent_id : String
  pub retry_intent_digest : Digest
  pub source_attempt_id : String
  pub source_attempt_no : ℕ
  pub source_fence : ℕ
  pub authority : RetryAuthority

unfoldable pub provenance_post_init : RetryProvenance → Command RetryProvenance
provenance_post_init p = do
  raise_if (is_blank p.retry_intent_id) (invalid "retry_provenance" "retry_intent_id" "empty")
  raise_if (is_blank p.source_attempt_id) (invalid "retry_provenance" "source_attempt_id" "empty")
  raise_if (p.source_attempt_no == 0)
      (invalid "retry_provenance" "source_attempt_no" "not_positive")
  raise_if (p.source_fence == 0) (invalid "retry_provenance" "source_fence" "not_positive")
  ok p

-- `RetryProvenance.from_intent`.
unfoldable pub from_intent : Hash → RetryIntent → Command RetryProvenance
unfolding intent_digest provenance_post_init
from_intent sha256 i = do
  digest ← intent_digest sha256 i
  provenance_post_init (record {
    retry_intent_id = i.id;
    retry_intent_digest = digest;
    source_attempt_id = i.source_attempt_id;
    source_attempt_no = i.source_attempt_no;
    source_fence = i.source_fence;
    authority = i.authority;
  })

-- `RetryIntent.adjudication_id`.
abbrev pub adjudication_id : RetryAuthority → String
adjudication_id (adjudicated u) = u.adjudication_id
adjudication_id (by_policy p) = ""

-- `RetryProvenance.digest`.
pub provenance_digest : Hash → RetryProvenance → Command Digest
unfolding canonical_digest authority_json
provenance_digest sha256 p = canonical_digest sha256 "qep.retry-provenance.v2" (
    obj (
      member "retry_intent_id" (str p.retry_intent_id) (
        member "retry_intent_digest" (digest_json p.retry_intent_digest) (
          member "source_attempt_id" (str p.source_attempt_id) (
            member "source_attempt_no" (num (pos p.source_attempt_no)) (
              member "source_fence" (num (pos p.source_fence))
                (member "authority" (authority_json p.authority) end)))))))

-- The equality of the dataclasses.
pub RetryAuthority-discrete : Discrete RetryAuthority
RetryAuthority-discrete = hlevel (ℕ_discrete, String-discrete)
