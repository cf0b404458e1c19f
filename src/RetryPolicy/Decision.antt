-- ===== src/RetryPolicy/Decision.antt =====
-- What the decision on a retry rests on.
use mathlib.Core.List.{Memᴰ}
use qarunner.Prelude.Members.{Memᴰ-any, any-Memᴰ}
use qarunner.Prelude.{
  >>=-eq-ok, Bool, List, Option, String, any, ap, arith, false, if◌then◌else◌, is_some, none, not,
  ok, refl, same, same_iff, some, texts_differ, true, ℕ, ◌&&◌, ◌+◌, ◌<◌, ◌↔◌, ◌∙◌, ◌≡◌, ◌≤◌,
}
use qarunner.Values.{DateTime, Digest, is_utc, require_utc, utc}
use qarunner.Retry.{
  AttemptExecutionFact, RetryPolicyFamily, fact_cancelled, fact_infra_failed, fact_passed,
  fact_test_failed, fact_unknown, platform, suite,
}
use qarunner.RetryPolicy.{
  PolicyTarget, RetryBudgetUsage, RetryDecision, RetryPolicy, RetryPolicyAuthority,
  RetryReasonSelector, RetryRequestedBudget, RetrySourceFact, RunRetryDecision, allowed, allows,
  decided, decision_check, evaluate_run_retry, family_for, is_expected, number_is, platform_target,
  retry, same_family, suite_target, target_matches,
}

-- What a retry by a policy for the target needs of the authority and of the ended Attempt: a policy
-- for a suite retries failed tests of the very revision, and one for a platform retries failures of
-- the infrastructure of the very runner, whose earlier execution is proved to have stopped.
abbrev pub Aimed : PolicyTarget → RetryPolicyAuthority → RetrySourceFact → Type 0
Aimed (suite_target id) a s =
    (s.outcome ≡ fact_test_failed) × (a.family ≡ suite) × (a.suite_revision_id ≡ some id)
Aimed (platform_target id n) a s =
    (s.outcome ≡ fact_infra_failed)
    × (a.family ≡ platform)
    × (a.runner_id ≡ some id)
    × (a.runner_version ≡ some n)
    × ((stop : Digest) × (s.prior_execution_stop_digest ≡ some stop))

-- The conditions under which a policy and an authority permit a retry.
pub record Permits (p : RetryPolicy) (a : RetryPolicyAuthority) (s : RetrySourceFact)
    (used : RetryBudgetUsage) (asked : RetryRequestedBudget) (at : DateTime) : Type 0 where
  pub aimed : Aimed p.target a s
  pub project : a.project_id ≡ p.project_id
  pub role : a.approver_role ≡ p.required_approver_role
  pub policy_begun : p.effective_from.instant ≤ at.instant
  pub policy_not_over : at.instant < p.effective_until.instant
  pub authority_begun : a.valid_from.instant ≤ at.instant
  pub authority_not_over : at.instant < a.valid_until.instant
  pub reason :
      (r : RetryReasonSelector) × Memᴰ r p.retryable_reasons
      × (r.reason_class ≡ s.reason_class)
      × (r.reason_code ≡ s.reason_code)
  pub retries_left : used.retry_count < p.max_retries
  pub execution_within :
      used.execution_seconds + asked.execution_seconds ≤ p.budget.max_execution_seconds
  pub resources_within :
      used.resource_unit_seconds + asked.resource_unit_seconds ≤ p.budget.max_resource_unit_seconds

abbrev pub Permitted :
    Option RetryPolicy
    → Option RetryPolicyAuthority
    → RetrySourceFact
    → RetryBudgetUsage
    → RetryRequestedBudget
    → DateTime
    → Type 0
Permitted (some p) (some a) s used asked at = Permits p a s used asked at
Permitted _ _ s used asked at = ⊥

-- The tests of the code that depend on the target.
abbrev Tested : PolicyTarget → RetryPolicyAuthority → RetrySourceFact → Type 0
Tested t a s =
    (is_expected (family_for t) s.outcome ≡ true)
    × (same_family a.family (family_for t) ≡ true)
    × (target_matches t a s ≡ true)

stop_iff : (o : Option Digest) → (is_some o ≡ true) ↔ ((d : Digest) × (o ≡ some d))
stop_iff none = ground arith
stop_iff (some d) = ((λ h. (d, refl)), (λ h. refl))

named_iff :
    (o : Option String) (id : String) → (not (texts_differ o (some id)) ≡ true) ↔ (o ≡ some id)
named_iff none id = ground arith
named_iff (some s) id = ground (arith, same_iff s id)

numbered_iff : (o : Option ℕ) (n : ℕ) → (number_is o n ≡ true) ↔ (o ≡ some n)
numbered_iff none n = ground arith
numbered_iff (some m) n = ground arith

expected_iff :
    (o : AttemptExecutionFact)
    → ((is_expected suite o ≡ true) ↔ (o ≡ fact_test_failed))
      × ((is_expected platform o ≡ true) ↔ (o ≡ fact_infra_failed))
expected_iff fact_passed = ground arith
expected_iff fact_test_failed = ground arith
expected_iff fact_infra_failed = ground arith
expected_iff fact_cancelled = ground arith
expected_iff fact_unknown = ground arith

same_family_iff : (f g : RetryPolicyFamily) → (same_family f g ≡ true) ↔ (f ≡ g)
same_family_iff suite suite = ground arith
same_family_iff suite platform = ground arith
same_family_iff platform suite = ground arith
same_family_iff platform platform = ground arith

target_iff :
    (t : PolicyTarget) (a : RetryPolicyAuthority) (s : RetrySourceFact) → Tested t a s ↔ Aimed t a s
target_iff (suite_target id) a s = ground (
  arith,
  expected_iff s.outcome,
  same_family_iff a.family suite,
  named_iff a.suite_revision_id id,
)
target_iff (platform_target id n) a s = ground (
  arith,
  expected_iff s.outcome,
  same_family_iff a.family platform,
  named_iff a.runner_id id,
  numbered_iff a.runner_version n,
  stop_iff s.prior_execution_stop_digest,
)

abbrev is_reason : RetrySourceFact → RetryReasonSelector → Bool
is_reason s r = same r.reason_class s.reason_class && same r.reason_code s.reason_code

is_reason_iff :
    (s : RetrySourceFact) (r : RetryReasonSelector)
    → (is_reason s r ≡ true) ↔ ((r.reason_class ≡ s.reason_class) × (r.reason_code ≡ s.reason_code))
is_reason_iff s r =
    ground (arith, same_iff r.reason_class s.reason_class, same_iff r.reason_code s.reason_code)

listed_iff :
    (s : RetrySourceFact) (l : List RetryReasonSelector)
    → (any (λ r. same r.reason_class s.reason_class && same r.reason_code s.reason_code) l ≡ true)
      ↔ ((r : RetryReasonSelector) × Memᴰ r l
          × (r.reason_class ≡ s.reason_class)
          × (r.reason_code ≡ s.reason_code))
listed_iff s l = (
  (λ h.
      let (r, m, k) = any-Memᴰ (is_reason s) l h in
      let (c, e) = (is_reason_iff s r).0 k in (r, m, c, e)),
  (λ (r, m, c, e). Memᴰ-any (is_reason s) m ((is_reason_iff s r).1 (c, e))),
)

allows_iff :
    (p : RetryPolicy) (a : RetryPolicyAuthority) (s : RetrySourceFact) (used : RetryBudgetUsage)
    (asked : RetryRequestedBudget) (at : DateTime)
    → (allows p a s used asked at ≡ true) ↔ Permits p a s used asked at
unfolding allows
allows_iff p a s used asked at = ground (
  arith,
  same_iff a.project_id p.project_id,
  same_iff a.approver_role p.required_approver_role,
  target_iff p.target a s,
  listed_iff s p.retryable_reasons,
)

allowed_iff :
    (policy : Option RetryPolicy) (authority : Option RetryPolicyAuthority) (s : RetrySourceFact)
    (used : RetryBudgetUsage) (asked : RetryRequestedBudget) (at : DateTime)
    → (allowed policy authority s used asked at ≡ true) ↔ Permitted policy authority s used asked at
allowed_iff (some p) (some a) s used asked at = allows_iff p a s used asked at
allowed_iff (some p) none s used asked at = ground arith
allowed_iff none authority s used asked at = ground arith

decision_of :
    (b : Bool)
    → ((if b then RetryDecision.retry else RetryDecision.closed_no_retry) ≡ RetryDecision.retry)
      ↔ (b ≡ true)
decision_of true = ground arith
decision_of false = ground arith

decision_check-passes :
    (b : Bool) (digest : Digest)
    → decision_check
        (if b then RetryDecision.retry else RetryDecision.closed_no_retry)
        (if b then some digest else none)
      ≡ ok tt
unfolding decision_check
decision_check-passes true digest = ground arith
decision_check-passes false digest = ground arith

-- At a time in UTC the evaluation always gives a decision, and it is to retry exactly when there
-- is a policy and an authority and every condition holds: for a suite a failed test and an authority
-- for the same revision, for a platform a failure of the infrastructure, an authority for the same
-- runner and version and a proof that the earlier execution stopped; project and role agree, both
-- are in force, the reason is listed, a retry is left, and the used and the requested budget
-- together stay within the policy's.
pub evaluate_run_retry_iff :
    (policy : Option RetryPolicy) (s : RetrySourceFact) (authority : Option RetryPolicyAuthority)
    (used : RetryBudgetUsage) (asked : RetryRequestedBudget) (digest : Digest) (at : DateTime)
    → is_utc at ≡ true
    → (d : RunRetryDecision) × (evaluate_run_retry policy s authority used asked digest at ≡ ok d)
      × ((d.decision ≡ retry) ↔ Permitted policy authority s used asked at)
unfolding evaluate_run_retry require_utc
evaluate_run_retry_iff policy s authority used asked digest at utc =
    let b = allowed policy authority s used asked at in
    (
      decided b policy authority s used asked digest at,
      ground (arith, utc, decision_check-passes b digest),
      (
        (λ h. (allowed_iff policy authority s used asked at).0 ((decision_of b).0 h)),
        (λ h. (decision_of b).1 ((allowed_iff policy authority s used asked at).1 h)),
      ),
    )

-- What a decision records is within the bounds of its policy.
abbrev pub WithinPolicy : RunRetryDecision → Option RetryPolicy → Type 0
WithinPolicy d none = ⊥
WithinPolicy d (some p) =
    (d.usage.retry_count < p.max_retries)
    × (d.usage.execution_seconds + d.requested.execution_seconds ≤ d.budget.max_execution_seconds)
    × (d.usage.resource_unit_seconds + d.requested.resource_unit_seconds
        ≤ d.budget.max_resource_unit_seconds)

Permitted-WithinPolicy :
    (b : Bool) (policy : Option RetryPolicy) (authority : Option RetryPolicyAuthority)
    (s : RetrySourceFact) (used : RetryBudgetUsage) (asked : RetryRequestedBudget) (digest : Digest)
    (at : DateTime)
    → Permitted policy authority s used asked at
    → WithinPolicy (decided b policy authority s used asked digest at) policy
Permitted-WithinPolicy b (some p) (some a) s used asked digest at h =
    (h.retries_left, h.execution_within, h.resources_within)
Permitted-WithinPolicy b (some p) none s used asked digest at h = ground (arith, h)
Permitted-WithinPolicy b none authority s used asked digest at h = ground (arith, h)

evaluated :
    (policy : Option RetryPolicy) (s : RetrySourceFact) (authority : Option RetryPolicyAuthority)
    (used : RetryBudgetUsage) (asked : RetryRequestedBudget) (digest : Digest) (at : DateTime)
    (d : RunRetryDecision)
    → evaluate_run_retry policy s authority used asked digest at ≡ ok d
    → decided (allowed policy authority s used asked at) policy authority s used asked digest at ≡ d
unfolding evaluate_run_retry
evaluated policy s authority used asked digest at d h =
    let (u, e1, h1) = >>=-eq-ok (require_utc "run_retry_evaluation" "decided_at" at) _ h in
    let made =
      decided (allowed policy authority s used asked at) policy authority s used asked digest at in
    let (u', e2, h2) = >>=-eq-ok (decision_check made.decision made.retry_intent_digest) _ h1 in
    ground (arith, h2)

WithinPolicy-same :
    (d e : RunRetryDecision) (policy : Option RetryPolicy)
    → d ≡ e
    → WithinPolicy d policy
    → WithinPolicy e policy
WithinPolicy-same d e policy p h = rw p at h

-- A decision to retry has a policy: a retry is left in it, and the execution time and the
-- resources used and requested together are within the budget that the decision records.
pub evaluate_run_retry-WithinPolicy :
    (policy : Option RetryPolicy) (s : RetrySourceFact) (authority : Option RetryPolicyAuthority)
    (used : RetryBudgetUsage) (asked : RetryRequestedBudget) (digest : Digest) (at : DateTime)
    (d : RunRetryDecision)
    → evaluate_run_retry policy s authority used asked digest at ≡ ok d
    → d.decision ≡ retry
    → WithinPolicy d policy
evaluate_run_retry-WithinPolicy policy s authority used asked digest at d h r =
    let b = allowed policy authority s used asked at in
    let e = evaluated policy s authority used asked digest at d h in
    let yes_retry : b ≡ true = (decision_of b).0 (ap (λ x. x.decision) e ∙ r) in
    WithinPolicy-same _ d policy e (
      Permitted-WithinPolicy b policy authority s used asked digest at
        ((allowed_iff policy authority s used asked at).0 yes_retry))
