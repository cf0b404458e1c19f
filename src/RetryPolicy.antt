-- ===== src/RetryPolicy.antt =====
-- domain/run_retry_policy.py: the policies that allow a retry of a Run by itself, and their
-- evaluation, which fails closed.
pub mod Decision
pub mod Validation
pub mod Payload
mod Examples
use qarunner.Prelude.{
  Bool, List, Option, String, any, false, if◌then◌else◌, is_blank, is_none, is_some, leb, ltb, none,
  not, ok, raise_if, same, some, texts_differ, true, ℕ, ◌&&◌, ◌+◌, ◌==◌, ◌>>◌, ◌||◌,
}
use qarunner.Values.{Command, DateTime, Digest, at_most, before, digest_eq, invalid, require_utc}
use qarunner.Retry.{
  AttemptExecutionFact, RetryDecisionSourceKind, RetryPolicyFamily, fact_infra_failed,
  fact_test_failed, platform, platform_policy, suite, suite_policy,
}

pub data RetryDecision : Type 0 where
  retry : RetryDecision
  closed_no_retry : RetryDecision

pub record RetryReasonSelector : Type 0 where
  pub reason_class : String
  pub reason_code : String

pub record RetryBudget : Type 0 where
  pub max_retries : ℕ
  pub max_execution_seconds : ℕ
  pub max_resource_unit_seconds : ℕ

pub record RetryBudgetUsage : Type 0 where
  pub retry_count : ℕ
  pub execution_seconds : ℕ
  pub resource_unit_seconds : ℕ

pub record RetryRequestedBudget : Type 0 where
  pub execution_seconds : ℕ
  pub resource_unit_seconds : ℕ

-- What a policy is for: `SuiteRetryPolicy` and `PlatformRetryPolicy` differ in these fields.
pub data PolicyTarget : Type 0 where
  suite_target : (suite_revision_id : String) → PolicyTarget
  platform_target : (runner_id : String) (runner_version : ℕ) → PolicyTarget

-- The fields that both policies have, with the target. `retry_scope` has one value only.
pub record RetryPolicy : Type 0 where
  pub policy_id : String
  pub version : ℕ
  pub project_id : String
  pub target : PolicyTarget
  pub retryable_reasons : List RetryReasonSelector
  pub required_approver_role : String
  pub max_retries : ℕ
  pub budget : RetryBudget
  pub effective_from : DateTime
  pub effective_until : DateTime
  pub policy_digest : Digest

pub record RetrySourceFact : Type 0 where
  pub run_id : String
  pub run_version : ℕ
  pub attempt_id : String
  pub attempt_no : ℕ
  pub attempt_fence : ℕ
  pub outcome : AttemptExecutionFact
  pub reason_class : String
  pub reason_code : String
  pub item_resolution_set_digest : Digest
  pub source_item_set_digest : Digest
  pub target_item_set_digest : Digest
  pub prior_execution_stop_digest : Option Digest

-- `RetrySourceFact.__post_init__`.
unfoldable pub source_post_init : RetrySourceFact → Command RetrySourceFact
source_post_init s = do
  raise_if (is_blank s.run_id) (invalid "retry_source_fact" "run_id" "empty")
  raise_if (is_blank s.attempt_id) (invalid "retry_source_fact" "attempt_id" "empty")
  raise_if (is_blank s.reason_class) (invalid "retry_source_fact" "reason_class" "empty")
  raise_if (is_blank s.reason_code) (invalid "retry_source_fact" "reason_code" "empty")
  raise_if (s.attempt_no == 0) (invalid "retry_source_fact" "attempt_no" "not_positive_integer")
  raise_if (s.attempt_fence == 0)
      (invalid "retry_source_fact" "attempt_fence" "not_positive_integer")
  raise_if (not (digest_eq s.source_item_set_digest s.target_item_set_digest))
      (invalid "retry_source_fact" "target_item_set_digest" "full_run_scope_mismatch")
  ok s

pub record RetryPolicyAuthority : Type 0 where
  pub schema : String
  pub authority_id : String
  pub version : ℕ
  pub family : RetryPolicyFamily
  pub project_id : String
  pub suite_revision_id : Option String
  pub runner_id : Option String
  pub runner_version : Option ℕ
  pub approver_role : String
  pub approval_record_digest : Digest
  pub valid_from : DateTime
  pub valid_until : DateTime
  pub authority_digest : Digest

-- `_window`.
unfoldable pub window : String → DateTime → DateTime → Command (Unit {0})
unfolding require_utc
window entity start until = do
  require_utc entity "effective_from" start
  require_utc entity "effective_until" until
  raise_if (at_most until start) (invalid entity "effective_until" "invalid_window")

-- `_string` and `_positive` of a value that may be missing.
abbrev blank? : Option String → Bool
blank? none = true
blank? (some s) = is_blank s

abbrev not_positive? : Option ℕ → Bool
not_positive? none = true
not_positive? (some n) = n == 0

family_check : RetryPolicyFamily → RetryPolicyAuthority → Command (Unit {0})
family_check suite a = do
  raise_if (blank? a.suite_revision_id)
      (invalid "retry_policy_authority" "suite_revision_id" "empty")
  raise_if (is_some a.runner_id || is_some a.runner_version)
      (invalid "retry_policy_authority" "runner" "forbidden")
family_check platform a = do
  raise_if (blank? a.runner_id) (invalid "retry_policy_authority" "runner_id" "empty")
  raise_if (not_positive? a.runner_version)
      (invalid "retry_policy_authority" "runner_version" "not_positive_integer")
  raise_if (is_some a.suite_revision_id)
      (invalid "retry_policy_authority" "suite_revision_id" "forbidden")

-- `RetryPolicyAuthority.__post_init__`.
unfoldable pub authority_post_init : RetryPolicyAuthority → Command RetryPolicyAuthority
unfolding window family_check
authority_post_init a = do
  raise_if (is_blank a.schema) (invalid "retry_policy_authority" "schema" "empty")
  raise_if (is_blank a.authority_id) (invalid "retry_policy_authority" "authority_id" "empty")
  raise_if (is_blank a.project_id) (invalid "retry_policy_authority" "project_id" "empty")
  raise_if (is_blank a.approver_role) (invalid "retry_policy_authority" "approver_role" "empty")
  raise_if (a.version == 0) (invalid "retry_policy_authority" "version" "not_positive_integer")
  window "retry_policy_authority" a.valid_from a.valid_until
  family_check a.family a
  ok a

pub record RunRetryDecision : Type 0 where
  pub source : RetrySourceFact
  pub decision : RetryDecision
  pub decision_source_kind : RetryDecisionSourceKind
  pub reason_class : String
  pub reason_code : String
  pub retry_intent_digest : Option Digest
  pub authority_schema : Option String
  pub authority_id : Option String
  pub authority_version : Option ℕ
  pub authority_digest : Option Digest
  pub policy_digest : Option Digest
  pub prior_execution_stop_digest : Option Digest
  pub budget : RetryBudget
  pub usage : RetryBudgetUsage
  pub requested : RetryRequestedBudget
  pub decided_at : DateTime

-- `RunRetryDecision.__post_init__`.
decision_check : RetryDecision → Option Digest → Command (Unit {0})
decision_check retry digest =
    raise_if (is_none digest) (invalid "run_retry_decision" "retry_intent_digest" "required")
decision_check closed_no_retry digest =
    raise_if (is_some digest) (invalid "run_retry_decision" "retry_intent_digest" "forbidden")

-- `isinstance(policy, PlatformRetryPolicy)`; no policy counts as the suite's.
abbrev pub family_for : PolicyTarget → RetryPolicyFamily
family_for (suite_target id) = suite
family_for (platform_target id n) = platform

abbrev pub family_of : Option RetryPolicy → RetryPolicyFamily
family_of none = suite
family_of (some p) = family_for p.target

abbrev kind_of : RetryPolicyFamily → RetryDecisionSourceKind
kind_of suite = suite_policy
kind_of platform = platform_policy

-- `source.outcome is expected_outcome`.
abbrev pub is_expected : RetryPolicyFamily → AttemptExecutionFact → Bool
is_expected suite fact_test_failed = true
is_expected platform fact_infra_failed = true
is_expected _ _ = false

abbrev same_family : RetryPolicyFamily → RetryPolicyFamily → Bool
same_family suite suite = true
same_family platform platform = true
same_family _ _ = false

abbrev pub number_is : Option ℕ → ℕ → Bool
number_is none n = false
number_is (some m) n = m == n

-- The part of the test that depends on the kind of policy.
abbrev target_matches : PolicyTarget → RetryPolicyAuthority → RetrySourceFact → Bool
target_matches (suite_target id) a s = not (texts_differ a.suite_revision_id (some id))
target_matches (platform_target id n) a s =
    not (texts_differ a.runner_id (some id))
    && number_is a.runner_version n
    && is_some s.prior_execution_stop_digest

-- `allowed`, where there is a policy and an authority.
unfoldable pub allows :
    RetryPolicy
    → RetryPolicyAuthority
    → RetrySourceFact
    → RetryBudgetUsage
    → RetryRequestedBudget
    → DateTime
    → Bool
allows p a s used asked at =
    is_expected (family_of (some p)) s.outcome
    && same_family a.family (family_of (some p))
    && same a.project_id p.project_id
    && same a.approver_role p.required_approver_role
    && at_most p.effective_from at
    && before at p.effective_until
    && at_most a.valid_from at
    && before at a.valid_until
    && any (λ r. same r.reason_class s.reason_class && same r.reason_code s.reason_code)
        p.retryable_reasons
    && ltb used.retry_count p.max_retries
    && leb (used.execution_seconds + asked.execution_seconds) p.budget.max_execution_seconds
    && leb (used.resource_unit_seconds + asked.resource_unit_seconds)
        p.budget.max_resource_unit_seconds
    && target_matches p.target a s

abbrev pub allowed :
    Option RetryPolicy
    → Option RetryPolicyAuthority
    → RetrySourceFact
    → RetryBudgetUsage
    → RetryRequestedBudget
    → DateTime
    → Bool
allowed (some p) (some a) s used asked at = allows p a s used asked at
allowed _ _ s used asked at = false

abbrev field_of {ℓ κ} : {A : Type ℓ} {B : Type κ} → (A → B) → Option A → Option B
field_of f none = none
field_of f (some a) = some (f a)

abbrev budget_of : Option RetryPolicy → RetryBudget
budget_of none = record {
  max_retries = 0;
  max_execution_seconds = 0;
  max_resource_unit_seconds = 0;
}
budget_of (some p) = p.budget

abbrev pub decided :
    Bool
    → Option RetryPolicy
    → Option RetryPolicyAuthority
    → RetrySourceFact
    → RetryBudgetUsage
    → RetryRequestedBudget
    → Digest
    → DateTime
    → RunRetryDecision
decided yes_retry policy authority s used asked digest at = record {
  source = s;
  decision = if yes_retry then retry else closed_no_retry;
  decision_source_kind = kind_of (family_of policy);
  reason_class = s.reason_class;
  reason_code = s.reason_code;
  retry_intent_digest = if yes_retry then some digest else none;
  authority_schema = field_of (λ a. a.schema) authority;
  authority_id = field_of (λ a. a.authority_id) authority;
  authority_version = field_of (λ a. a.version) authority;
  authority_digest = field_of (λ a. a.authority_digest) authority;
  policy_digest = field_of (λ p. p.policy_digest) policy;
  prior_execution_stop_digest = s.prior_execution_stop_digest;
  budget = budget_of policy;
  usage = used;
  requested = asked;
  decided_at = at;
}

unfoldable pub evaluate_run_retry :
    Option RetryPolicy
    → RetrySourceFact
    → Option RetryPolicyAuthority
    → RetryBudgetUsage
    → RetryRequestedBudget
    → Digest
    → DateTime
    → Command RunRetryDecision
unfolding require_utc decision_check
evaluate_run_retry policy s authority used asked digest at = do
  require_utc "run_retry_evaluation" "decided_at" at
  let d = decided (allowed policy authority s used asked at) policy authority s used asked digest at
  decision_check d.decision d.retry_intent_digest
  ok d
