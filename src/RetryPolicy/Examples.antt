-- ===== src/RetryPolicy/Examples.antt =====
-- One decision to retry, and the theorems at it.
use qarunner.Prelude.{String, [], is_blank, none, ok, refl, some, true, ◌↔◌, ◌∷◌, ◌≡◌}
use qarunner.Values.{Digest, utc}
use qarunner.Retry.{fact_test_failed, suite}
use qarunner.RetryPolicy.{
  RetryBudgetUsage, RetryPolicy, RetryPolicyAuthority, RetryRequestedBudget, RetrySourceFact,
  RunRetryDecision, allows, decided, evaluate_run_retry, retry, suite_target,
}
use qarunner.Evidence.Ordering.{codes_le}
use qarunner.RetryPolicy.Validation.{RetriedBefore, evaluate_run_retry_bounds, policy_post_init}
use qarunner.RetryPolicy.Decision.{Permitted, WithinPolicy, evaluate_run_retry_iff}

abbrev digest : String → Digest
digest s = record { value = s }

abbrev policy : RetryPolicy
policy = record {
  policy_id = "p1";
  version = 1;
  project_id = "shop";
  target = suite_target "s1";
  retryable_reasons = record { reason_class = "test"; reason_code = "flaky" } ∷ [];
  required_approver_role = "owner";
  max_retries = 1;
  budget = record { max_retries = 1; max_execution_seconds = 600; max_resource_unit_seconds = 900 };
  effective_from = utc 0;
  effective_until = utc 1000;
  policy_digest = digest "policy";
}

abbrev authority : RetryPolicyAuthority
authority = record {
  schema = "v1";
  authority_id = "au1";
  version = 1;
  family = suite;
  project_id = "shop";
  suite_revision_id = some "s1";
  runner_id = none;
  runner_version = none;
  approver_role = "owner";
  approval_record_digest = digest "record";
  valid_from = utc 0;
  valid_until = utc 1000;
  authority_digest = digest "authority";
}

abbrev source : RetrySourceFact
source = record {
  run_id = "r1";
  run_version = 7;
  attempt_id = "t1";
  attempt_no = 1;
  attempt_fence = 1;
  outcome = fact_test_failed;
  reason_class = "test";
  reason_code = "flaky";
  item_resolution_set_digest = digest "items";
  source_item_set_digest = digest "set";
  target_item_set_digest = digest "set";
  prior_execution_stop_digest = none;
}

abbrev used : RetryBudgetUsage
used = record { retry_count = 0; execution_seconds = 300; resource_unit_seconds = 400 }

abbrev asked : RetryRequestedBudget
asked = record { execution_seconds = 300; resource_unit_seconds = 500 }

abbrev decision : RunRetryDecision
decision = decided true (some policy) (some authority) source used asked (digest "intent") (utc 500)

decision_then :
    evaluate_run_retry (some policy) source (some authority) used asked (digest "intent") (utc 500)
    ≡ ok decision
unfolding evaluate_run_retry allows
decision_then = refl

evaluate_run_retry_iff_example :
    (d : RunRetryDecision) × (evaluate_run_retry
        (some policy)
        source
        (some authority)
        used
        asked
        (digest "intent")
        (utc 500)
      ≡ ok d)
    × ((d.decision ≡ retry) ↔ Permitted (some policy) (some authority) source used asked (utc 500))
evaluate_run_retry_iff_example =
    evaluate_run_retry_iff (some policy) source (some authority) used asked (digest "intent")
      (utc 500) refl

policy_then : policy_post_init policy ≡ ok policy
unfolding policy_post_init is_blank codes_le
policy_then = refl

evaluate_run_retry_bounds_example :
    WithinPolicy decision (some policy) × RetriedBefore policy.target decision.usage.retry_count
evaluate_run_retry_bounds_example =
    evaluate_run_retry_bounds policy policy source (some authority) used asked (digest "intent")
      (utc 500) decision policy_then decision_then refl
