-- ===== src/Run/Retries.antt =====
-- The commands that queue a retry of a Run, and those that decide on an unknown Attempt.
use qarunner.Prelude.{
  Bool, Option, String, [], false, is_some, none, not, ok, raise_if, raised, same, some, true, ℕ, ℤ,
  ◌&&◌, ◌++◌, ◌+◌, ◌==◌, ◌>>=◌, ◌>>◌, ◌||◌, ◌∷◌,
}
use qarunner.Values.{
  Command, Digest, digest_eq, idempotency_conflict, retry_not_allowed, review_required,
}
use qarunner.Values.Canonical.{Hash}
use qarunner.Attempt.{Attempt, is_unknown}
use qarunner.Attempt.Commands.{append_unknown_adjudication}
use qarunner.Unknown.{UnknownAdjudication}
use qarunner.Retry.{
  AttemptExecutionFact, PolicyRetryAuthority, RetryAuthority, RetryDecisionSourceKind, RetryIntent,
  adjudicated, adjudication_id, by_policy, fact_cancelled, fact_infra_failed, fact_passed,
  fact_test_failed, fact_unknown, intent_digest, platform_policy, suite_policy,
}
use qarunner.RetryPolicy.{RetryDecision, RetrySourceFact, RunRetryDecision, closed_no_retry, retry}
use qarunner.Run.{Run, is_running, retry_queued}
use qarunner.Run.Lookups.{assignment_of, find_intent, pending_retry_intent, scope_of}
use qarunner.Run.Attempts.{is_retried_state}
use qarunner.Run.Pointers.{not_committed}
use qarunner.Run.Current.{current_attempt, ensure_retry_intent_authoritative, expect_version}
use qarunner.Run.Execution.{store_changed, unchanged}
use qarunner.Run.Aggregate.{run_post_init}

-- The id is stored: a replay has its content.
unfoldable pub replay_intent : Hash → Run → RetryIntent → RetryIntent → Command Run
unfolding intent_digest
replay_intent sha256 r stored i = do
  old ← intent_digest sha256 stored
  received ← intent_digest sha256 i
  raise_if (not (digest_eq old received))
      (idempotency_conflict (scope_of r "retry-intent") i.id old received)
  ok r

abbrev pub retried_run : Run → RetryIntent → Run
retried_run r i = record r {
  state = retry_queued;
  version = r.version + 1;
  current_assignment_id = none;
  retry_intents = r.retry_intents ++ i ∷ [];
  pending_retry_intent_id = some i.id;
}

unfoldable pub queue_adjudicated : Hash → Run → RetryIntent → ℤ → Option RetryIntent → Command Run
unfolding replay_intent expect_version
queue_adjudicated sha256 r i expected (some stored) = replay_intent sha256 r stored i
queue_adjudicated sha256 r i expected none = do
  source ← current_attempt r i.source_attempt_id
  ensure_retry_intent_authoritative sha256 r i source
  raise_if (is_some r.cancel_intent)
      (retry_not_allowed r.id source.id (adjudication_id i.authority) "cancel_requested")
  raise_if (not (is_running r.state) || is_some (pending_retry_intent r))
      (retry_not_allowed r.id source.id (adjudication_id i.authority) "retry_already_queued")
  raise_if (not_committed (assignment_of r)) (
      retry_not_allowed r.id source.id (adjudication_id i.authority)
        "source_assignment_not_committed")
  expect_version r expected
  run_post_init sha256 (retried_run r i)

unfoldable pub queue_adjudicated_retry : Hash → Run → RetryIntent → ℤ → Command Run
unfolding queue_adjudicated
queue_adjudicated_retry sha256 r i expected =
    queue_adjudicated sha256 r i expected (find_intent i.id r.retry_intents)

abbrev pub is_retry : RetryDecision → Bool
is_retry retry = true
is_retry closed_no_retry = false

abbrev same_fact : AttemptExecutionFact → AttemptExecutionFact → Bool
same_fact fact_passed fact_passed = true
same_fact fact_test_failed fact_test_failed = true
same_fact fact_infra_failed fact_infra_failed = true
same_fact fact_cancelled fact_cancelled = true
same_fact fact_unknown fact_unknown = true
same_fact _ _ = false

abbrev same_kind : RetryDecisionSourceKind → RetryDecisionSourceKind → Bool
same_kind suite_policy suite_policy = true
same_kind platform_policy platform_policy = true
same_kind _ _ = false

abbrev digest_is : Option Digest → Digest → Bool
digest_is none d = false
digest_is (some e) d = digest_eq e d

abbrev text_is : Option String → String → Bool
text_is none s = false
text_is (some t) s = same t s

abbrev number_is : Option ℕ → ℕ → Bool
number_is none n = false
number_is (some m) n = m == n

-- What the decision says is what the authority of the intent says.
abbrev decision_matches : RunRetryDecision → PolicyRetryAuthority → Bool
decision_matches d p =
    same_fact d.source.outcome p.source_outcome
    && digest_eq d.source.item_resolution_set_digest p.item_resolution_set_digest
    && digest_eq d.source.source_item_set_digest p.source_item_set_digest
    && digest_eq d.source.target_item_set_digest p.target_item_set_digest
    && same_kind d.decision_source_kind p.decision_source_kind
    && digest_is d.policy_digest p.policy_digest
    && text_is d.authority_schema p.authority_schema
    && text_is d.authority_id p.authority_id
    && number_is d.authority_version p.authority_version
    && digest_is d.authority_digest p.authority_digest

-- What the decision and the intent say of their source is what the Run says of it.
abbrev source_matches : Run → RetryIntent → RetrySourceFact → Attempt → Bool
source_matches r i fact source =
    same fact.run_id r.id
    && fact.run_version == r.version
    && same fact.attempt_id source.id
    && fact.attempt_no == source.attempt_no
    && fact.attempt_fence == source.fence
    && same i.run_id r.id
    && i.source_attempt_no == source.attempt_no
    && i.source_fence == source.fence
    && digest_eq i.execution_spec_digest source.spec_digest

-- `_ensure_policy_retry_intent_authoritative`.
unfoldable pub ensure_policy_authority :
    Hash → Run → RetryIntent → RunRetryDecision → Attempt → RetryAuthority → Command (Unit {0})
unfolding intent_digest
ensure_policy_authority sha256 r i d source (adjudicated u) =
    raised (retry_not_allowed r.id source.id "" "policy_authority_required")
ensure_policy_authority sha256 r i d source (by_policy p) = do
  raise_if (not (is_retry d.decision)) (retry_not_allowed r.id source.id "" "retry_intent_mismatch")
  digest ← intent_digest sha256 i
  raise_if
      (not (digest_is d.retry_intent_digest digest)
        || not (is_retried_state p.source_outcome source.state)
        || not (decision_matches d p)
        || not (source_matches r i d.source source))
      (retry_not_allowed r.id source.id "" "retry_intent_mismatch")

unfoldable pub queue_by_policy :
    Hash → Run → RetryIntent → RunRetryDecision → ℤ → Option RetryIntent → Command Run
unfolding replay_intent expect_version ensure_policy_authority
queue_by_policy sha256 r i d expected (some stored) = replay_intent sha256 r stored i
queue_by_policy sha256 r i d expected none = do
  source ← current_attempt r i.source_attempt_id
  raise_if (is_some r.cancel_intent) (retry_not_allowed r.id source.id "" "cancel_requested")
  raise_if (not (is_running r.state) || is_some (pending_retry_intent r))
      (retry_not_allowed r.id source.id "" "retry_already_queued")
  ensure_policy_authority sha256 r i d source i.authority
  expect_version r expected
  run_post_init sha256 (retried_run r i)

unfoldable pub queue_policy_retry : Hash → Run → RetryIntent → RunRetryDecision → ℤ → Command Run
unfolding queue_by_policy
queue_policy_retry sha256 r i d expected =
    queue_by_policy sha256 r i d expected (find_intent i.id r.retry_intents)

unfoldable pub ensure_automatic_retry_source_is_not_unknown : Run → String → ℤ → Command (Unit {0})
unfolding expect_version
ensure_automatic_retry_source_is_not_unknown r id expected = do
  current ← current_attempt r id
  raise_if (is_unknown current.state)
      (review_required r.id id r.current_fence "manual_adjudication_required")
  expect_version r expected

unfoldable pub append_current_unknown_adjudication :
    Hash
    → Run
    → String
    → UnknownAdjudication
    → (expected_version expected_attempt_version : ℤ) → Command Run
unfolding store_changed
append_current_unknown_adjudication sha256 r id j expected expected_attempt = do
  current ← current_attempt r id
  updated ← append_unknown_adjudication sha256 current j expected_attempt
  raise_if
      (not (unchanged current updated)
        && (is_some (pending_retry_intent r) || not (is_running r.state)))
      (retry_not_allowed r.id id j.id "retry_already_queued")
  store_changed sha256 r updated expected (unchanged current updated)
