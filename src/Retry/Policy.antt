-- ===== src/Retry/Policy.antt =====
-- What a policy retry may rest on.
use qarunner.Prelude.{arith, false, is_blank, ok, ◌<◌, ◌↔◌, ◌≡◌}
use qarunner.Values.Laws.{digest_eq_iff}
use qarunner.Retry.{
  AttemptExecutionFact, PolicyRetryAuthority, RetryDecisionSourceKind, RetryPolicyFamily,
  fact_infra_failed, fact_test_failed, platform, platform_policy, policy_authority_post_init, suite,
  suite_policy,
}

-- Where the decision of a family comes from, and the outcome that it may retry.
abbrev pub Retries : RetryPolicyFamily → RetryDecisionSourceKind → AttemptExecutionFact → Type 0
Retries suite kind fact = (kind ≡ suite_policy) × (fact ≡ fact_test_failed)
Retries platform kind fact = (kind ≡ platform_policy) × (fact ≡ fact_infra_failed)

-- A policy authority is accepted exactly when a suite policy retries a test failure or a platform
-- policy an infrastructure failure, its schema and id are not blank, its version is positive, and
-- the retry covers the very items of its source. It is kept as given.
pub policy_authority_iff :
    (p q : PolicyRetryAuthority)
    → (policy_authority_post_init p ≡ ok q) ↔ (
        Retries p.family p.decision_source_kind p.source_outcome
        × (is_blank p.authority_schema ≡ false)
        × (is_blank p.authority_id ≡ false)
        × (0 < p.authority_version)
        × (p.source_item_set_digest ≡ p.target_item_set_digest)
        × (q ≡ p))
unfolding policy_authority_post_init
policy_authority_iff p q =
    ground (arith, digest_eq_iff p.source_item_set_digest p.target_item_set_digest)
