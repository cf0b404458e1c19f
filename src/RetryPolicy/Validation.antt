-- ===== src/RetryPolicy/Validation.antt =====
-- The validation of the retry policies and of the records that they hold, and what a decision by an
-- accepted policy is bound by.
use qarunner.Prelude.{
  >>=-eq-ok, Bool, List, Option, String, [], arith, codes, is_blank, is_empty, ltb, not, ok,
  raise_if, same, some, true, ℕ, ◌&&◌, ◌<◌, ◌==◌, ◌>>◌, ◌||◌, ◌∷◌, ◌≡◌, ◌≤◌,
}
use qarunner.Values.{Command, DateTime, Digest, invalid}
use qarunner.Evidence.Ordering.{codes_le}
use qarunner.RetryPolicy.{
  PolicyTarget, RetryBudgetUsage, RetryPolicy, RetryPolicyAuthority, RetryReasonSelector,
  RetryRequestedBudget, RetrySourceFact, RunRetryDecision, evaluate_run_retry, platform_target,
  retry, suite_target, window,
}
use qarunner.RetryPolicy.Decision.{WithinPolicy, evaluate_run_retry-WithinPolicy}

-- `RetryReasonSelector.__post_init__`.
unfoldable pub selector_post_init : RetryReasonSelector → Command RetryReasonSelector
selector_post_init r = do
  raise_if (is_blank r.reason_class) (invalid "retry_reason_selector" "reason_class" "empty")
  raise_if (is_blank r.reason_code) (invalid "retry_reason_selector" "reason_code" "empty")
  ok r

-- `RetryRequestedBudget.__post_init__`. The other two budgets only ask for types.
unfoldable pub requested_post_init : RetryRequestedBudget → Command RetryRequestedBudget
requested_post_init b = do
  raise_if (b.execution_seconds == 0)
      (invalid "retry_requested_budget" "execution_seconds" "not_positive_integer")
  raise_if (b.resource_unit_seconds == 0)
      (invalid "retry_requested_budget" "resource_unit_seconds" "not_positive_integer")
  ok b

-- `<` of two selectors: by class, then by code.
abbrev text_before : String → String → Bool
text_before a b = codes_le (codes a) (codes b) && not (same a b)

abbrev selector_before : RetryReasonSelector → RetryReasonSelector → Bool
selector_before a b =
    text_before a.reason_class b.reason_class
    || same a.reason_class b.reason_class && text_before a.reason_code b.reason_code

-- `tuple(sorted(set(values))) == values`.
abbrev pub sorted_once : List RetryReasonSelector → Bool
sorted_once [] = true
sorted_once (a ∷ []) = true
sorted_once (a ∷ b ∷ rest) = selector_before a b && sorted_once (b ∷ rest)

-- What differs between the two policies: the entity, `max_allowed` and the fields of the target.
abbrev pub entity_of : PolicyTarget → String
entity_of (suite_target id) = "suite_retry_policy"
entity_of (platform_target id n) = "platform_retry_policy"

abbrev pub max_allowed : PolicyTarget → ℕ
max_allowed (suite_target id) = 1
max_allowed (platform_target id n) = 2

unfoldable pub target_check : PolicyTarget → Command (Unit {0})
target_check (suite_target id) =
    raise_if (is_blank id) (invalid "suite_retry_policy" "suite_revision_id" "empty")
target_check (platform_target id n) = do
  raise_if (is_blank id) (invalid "platform_retry_policy" "runner_id" "empty")
  raise_if (n == 0) (invalid "platform_retry_policy" "runner_version" "not_positive_integer")

-- `_policy_common`.
unfoldable pub policy_common : RetryPolicy → String → ℕ → Command (Unit {0})
unfolding codes_le window
policy_common p entity maximum = do
  raise_if (is_blank p.policy_id) (invalid entity "policy_id" "empty")
  raise_if (is_blank p.project_id) (invalid entity "project_id" "empty")
  raise_if (p.version == 0) (invalid entity "version" "not_positive_integer")
  raise_if (ltb maximum p.max_retries || not (p.budget.max_retries == p.max_retries))
      (invalid entity "max_retries" "outside_signed_limit")
  raise_if (is_blank p.required_approver_role) (invalid entity "required_approver_role" "empty")
  raise_if (is_empty p.retryable_reasons) (invalid entity "retryable_reasons" "invalid_selector")
  raise_if (not (sorted_once p.retryable_reasons))
      (invalid entity "retryable_reasons" "not_sorted_unique")
  window entity p.effective_from p.effective_until

-- `SuiteRetryPolicy.__post_init__` and `PlatformRetryPolicy.__post_init__`.
unfoldable pub policy_post_init : RetryPolicy → Command RetryPolicy
unfolding policy_common target_check
policy_post_init p = do
  policy_common p (entity_of p.target) (max_allowed p.target)
  target_check p.target
  ok p

pub record Limited (p : RetryPolicy) : Type 0 where
  pub at_most_allowed : p.max_retries ≤ max_allowed p.target
  pub one_limit : p.budget.max_retries ≡ p.max_retries

policy_common-Limited :
    (p : RetryPolicy) (entity : String) (u : Unit {0})
    → policy_common p entity (max_allowed p.target) ≡ ok u
    → Limited p
unfolding policy_common
policy_common-Limited p entity u h =
    let (u1, e1, h1) = >>=-eq-ok (raise_if (is_blank p.policy_id) _) _ h in
    let (u2, e2, h2) = >>=-eq-ok (raise_if (is_blank p.project_id) _) _ h1 in
    let (u3, e3, h3) = >>=-eq-ok (raise_if (p.version == 0) _) _ h2 in
    let (u4, e4, h4) =
      >>=-eq-ok
        (raise_if
          (ltb (max_allowed p.target) p.max_retries || not (p.budget.max_retries == p.max_retries))
          _)
        _ h3 in
    record { at_most_allowed = ground (arith, e4); one_limit = ground (arith, e4) }

policy_post_init-Limited : (p q : RetryPolicy) → policy_post_init p ≡ ok q → Limited p
unfolding policy_post_init
policy_post_init-Limited p q h =
    let (u, e, h1) = >>=-eq-ok (policy_common p (entity_of p.target) (max_allowed p.target)) _ h in
    policy_common-Limited p (entity_of p.target) u e

-- The number of retries before one more by a policy for the target.
abbrev pub RetriedBefore : PolicyTarget → ℕ → Type 0
RetriedBefore (suite_target id) n = n ≡ 0
RetriedBefore (platform_target id k) n = n ≤ 1

few_retries :
    (t : PolicyTarget) (n limit : ℕ) → n < limit → limit ≤ max_allowed t → RetriedBefore t n
few_retries (suite_target id) n limit below h = omega arith
few_retries (platform_target id k) n limit below h = omega arith

-- A decision to retry by a policy that its constructor accepts is within the bounds of the policy:
-- the Run was retried less often than the policy says, by a policy for a suite not yet and by one
-- for a platform at most once, and the execution time and the resources used and requested together are
-- within the budget that the decision records.
pub evaluate_run_retry_bounds :
    (p q : RetryPolicy) (s : RetrySourceFact) (authority : Option RetryPolicyAuthority)
    (used : RetryBudgetUsage) (asked : RetryRequestedBudget) (digest : Digest) (at : DateTime)
    (d : RunRetryDecision)
    → policy_post_init p ≡ ok q
    → evaluate_run_retry (some p) s authority used asked digest at ≡ ok d
    → d.decision ≡ retry
    → WithinPolicy d (some p) × RetriedBefore p.target d.usage.retry_count
evaluate_run_retry_bounds p q s authority used asked digest at d valid h r =
    let within = evaluate_run_retry-WithinPolicy (some p) s authority used asked digest at d h r in
    let limits = policy_post_init-Limited p q valid in
    (within, few_retries p.target d.usage.retry_count p.max_retries within.0 limits.at_most_allowed)
