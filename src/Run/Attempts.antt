-- ===== src/Run/Attempts.antt =====
-- `_validate_normalized_history`, first half: the pointers, the Attempts and the retry intents.
use qarunner.Prelude.{
  Bool, List, Option, String, [], any, false, holds, is_some, last, none, not, ok, raise_if, raised,
  same, some, texts_differ, true, ℕ, ◌&&◌, ◌+◌, ◌==◌, ◌>>=◌, ◌>>◌, ◌||◌, ◌∷◌,
}
use qarunner.Values.{Command, DateTime, before, digest_eq, ref_eq}
use qarunner.Values.Canonical.{Hash}
use qarunner.Assignment.{Assignment}
use qarunner.Attempt.{Attempt, AttemptState}
use qarunner.Retry.{
  AttemptExecutionFact, RetryAuthority, RetryAuthority-discrete, RetryIntent, RetryProvenance,
  UnknownAdjudicationRetryAuthority, adjudicated, by_policy, fact_test_failed, intent_digest,
}
use qarunner.Unknown.{
  UnknownAdjudication, UnknownAdjudicationDecision, UnknownObservation,
  accept_duplicate_risk_then_retry, adjudication_digest, confirm_stopped_then_retry,
  mark_completed_from_verified_evidence, mark_infra_failed_no_retry, permits_retry,
}
use qarunner.Run.{Run, invalid_run}
use qarunner.Run.Lookups.{find_assignment, find_attempt, find_intent, is_committed}

-- A pointer names the last of the listed ids.
unfoldable pub pointer_check : String → Option String → List String → Command (Unit {0})
pointer_check field none ids = ok tt
pointer_check field (some id) ids = do
  raise_if (not (any (λ i. same i id) ids)) (invalid_run field "not_found")
  raise_if (texts_differ (last ids) (some id)) (invalid_run field "not_latest")

-- `attempt.unknown_observation.recorded_at < assignment.committed_at`.
abbrev pub unknown_before : Option UnknownObservation → Option DateTime → Bool
unknown_before (some o) (some t) = before o.recorded_at t
unknown_before _ _ = false

-- The provenance of a later Attempt binds its intent, which binds the Attempt before it.
unfoldable pub link_check :
    Hash
    → Assignment
    → Attempt
    → Attempt
    → RetryProvenance
    → Option RetryIntent
    → Option Attempt
    → Command (Unit {0})
unfolding intent_digest
link_check sha256 s a previous p (some i) (some source) = do
  raise_if
      (not (same source.id previous.id)
        || texts_differ s.retry_intent_id (some i.id)
        || not (digest_eq a.spec_digest i.execution_spec_digest)
        || not (i.source_attempt_no == source.attempt_no)
        || not (i.source_fence == source.fence))
      (invalid_run "attempts" "retry_provenance_mismatch")
  digest ← intent_digest sha256 i
  raise_if
      (not (digest_eq p.retry_intent_digest digest)
        || not (p.source_attempt_no == i.source_attempt_no)
        || not (p.source_fence == i.source_fence)
        || not (holds (RetryAuthority-discrete p.authority i.authority)))
      (invalid_run "attempts" "retry_provenance_mismatch")
link_check sha256 s a previous p _ _ = raised (invalid_run "attempts" "retry_provenance_mismatch")

unfoldable pub provenance_links :
    Hash → Run → Assignment → Attempt → Attempt → Option RetryProvenance → Command (Unit {0})
unfolding link_check
provenance_links sha256 r s a previous none =
    raised (invalid_run "attempts" "retry_provenance_missing")
provenance_links sha256 r s a previous (some p) =
    link_check sha256 s a previous p (find_intent p.retry_intent_id r.retry_intents)
      (find_attempt p.source_attempt_id r.attempts)

-- The first Attempt has no intent; a later one is bound to the one before it.
unfoldable pub origin_check :
    Hash → Run → Assignment → Attempt → Option Attempt → Command (Unit {0})
unfolding provenance_links
origin_check sha256 r s a none =
    raise_if (is_some s.retry_intent_id) (invalid_run "assignments" "retry_intent_mismatch")
origin_check sha256 r s a (some previous) =
    provenance_links sha256 r s a previous a.retry_provenance

unfoldable pub reservation_check :
    Hash → Run → Attempt → Option Attempt → Option Assignment → Command (Unit {0})
unfolding origin_check
reservation_check sha256 r a previous none = raised (invalid_run "attempts" "assignment_missing")
reservation_check sha256 r a previous (some s) = do
  raise_if
      (not (is_committed s.state)
        || not (ref_eq s.worker a.worker)
        || not (digest_eq s.spec_digest a.spec_digest))
      (invalid_run "attempts" "assignment_mismatch")
  raise_if (unknown_before a.unknown_observation s.committed_at)
      (invalid_run "attempts" "unknown_before_assignment_commit")
  origin_check sha256 r s a previous

-- The loop over `enumerate(self.attempts, start=1)`.
unfoldable pub attempts_check : Hash → Run → ℕ → Option Attempt → List Attempt → Command (Unit {0})
attempts_check sha256 r index previous [] = ok tt
attempts_check sha256 r index previous (a ∷ rest) = do
  raise_if (not (same a.run_id r.id)) (invalid_run "attempts" "run_mismatch")
  raise_if (not (a.attempt_no == index)) (invalid_run "attempts" "attempt_no_not_contiguous")
  raise_if (not (a.fence == index)) (invalid_run "attempts" "attempt_fence_not_contiguous")
  reservation_check sha256 r a previous (find_assignment a.assignment_id r.assignments)
  attempts_check sha256 r (index + 1) (some a) rest

-- `self.attempts[-1].fence if self.attempts else 0`.
abbrev pub latest_fence : Option Attempt → ℕ
latest_fence none = 0
latest_fence (some a) = a.fence

-- `pending.source_attempt_id != self.attempts[-1].id`, or there is no Attempt.
abbrev pub not_from_latest : Option RetryIntent → Option Attempt → Bool
not_from_latest none latest = false
not_from_latest (some i) none = true
not_from_latest (some i) (some a) = not (same i.source_attempt_id a.id)

-- `len(retry_authorities) != len(set(retry_authorities))`.
unfoldable pub repeats_authority : List RetryIntent → Bool
repeats_authority [] = false
repeats_authority (i ∷ is) =
    any
      (λ j.
        same i.source_attempt_id j.source_attempt_id
        && holds (RetryAuthority-discrete i.authority j.authority))
      is
    || repeats_authority is

-- `source.state is expected`, for the outcome that a policy retries.
abbrev pub is_retried_state : AttemptExecutionFact → AttemptState → Bool
is_retried_state fact_test_failed AttemptState.test_failed = true
is_retried_state fact_test_failed _ = false
is_retried_state _ AttemptState.infra_failed = true
is_retried_state _ _ = false

-- `a.decision is b.decision`.
abbrev pub same_decision : UnknownAdjudicationDecision → UnknownAdjudicationDecision → Bool
same_decision confirm_stopped_then_retry confirm_stopped_then_retry = true
same_decision accept_duplicate_risk_then_retry accept_duplicate_risk_then_retry = true
same_decision mark_infra_failed_no_retry mark_infra_failed_no_retry = true
same_decision mark_completed_from_verified_evidence mark_completed_from_verified_evidence = true
same_decision _ _ = false

unfoldable pub adjudication_backs :
    Hash
    → RetryIntent
    → UnknownAdjudicationRetryAuthority
    → Option UnknownAdjudication
    → Command (Unit {0})
adjudication_backs sha256 i u none =
    raised (invalid_run "retry_intents" "adjudication_not_authoritative")
adjudication_backs sha256 i u (some j) =
    raise_if
      (not (same u.adjudication_id j.id)
        || not (digest_eq u.adjudication_digest (adjudication_digest sha256 j))
        || not (same_decision u.decision j.decision)
        || not (permits_retry j.decision)
        || before i.created_at j.occurred_at)
      (invalid_run "retry_intents" "adjudication_not_authoritative")

unfoldable pub authority_backs : Hash → RetryIntent → RetryAuthority → Attempt → Command (Unit {0})
unfolding adjudication_backs
authority_backs sha256 i (adjudicated u) source =
    adjudication_backs sha256 i u (last source.adjudications)
authority_backs sha256 i (by_policy p) source =
    raise_if (not (is_retried_state p.source_outcome source.state))
      (invalid_run "retry_intents" "policy_not_authoritative")

unfoldable pub source_check : Hash → Run → RetryIntent → Option Attempt → Command (Unit {0})
unfolding authority_backs
source_check sha256 r i none = raised (invalid_run "retry_intents" "source_mismatch")
source_check sha256 r i (some source) = do
  raise_if (not (same i.run_id r.id)) (invalid_run "retry_intents" "source_mismatch")
  raise_if
      (not (i.source_attempt_no == source.attempt_no)
        || not (i.source_fence == source.fence)
        || not (digest_eq i.execution_spec_digest source.spec_digest))
      (invalid_run "retry_intents" "source_mismatch")
  authority_backs sha256 i i.authority source

-- The loop over the retry intents.
unfoldable pub intents_check : Hash → Run → List RetryIntent → Command (Unit {0})
intents_check sha256 r [] = ok tt
intents_check sha256 r (i ∷ is) = do
  source_check sha256 r i (find_attempt i.source_attempt_id r.attempts)
  intents_check sha256 r is
