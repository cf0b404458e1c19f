-- ===== src/Run/Current.antt =====
-- What the commands of a Run share: its current Attempt, the authority of a retry intent, and the
-- replacement of the current reservation.
use qarunner.Prelude.{
  List, Option, String, String-discrete, [], holds, if◌then◌else◌, last, none, not, ok, raise_if,
  raised, same, some, texts_differ, ℕ_discrete, ℤ, ◌==◌, ◌>>◌, ◌||◌, ◌∷◌,
}
use qarunner.Values.{
  Command, DateTime, DomainError, assignment_conflict, before, digest_eq, ensure_expected_version,
  invalid_transition, is_utc, retry_not_allowed, review_required, stale_fence,
}
use qarunner.Values.Canonical.{Hash}
use qarunner.Assignment.{Assignment}
use qarunner.Attempt.{Attempt, is_unknown}
use qarunner.Retry.{
  RetryAuthority, RetryIntent, UnknownAdjudicationRetryAuthority, adjudicated, by_policy,
}
use qarunner.Unknown.{UnknownAdjudication, adjudication_digest, permits_retry}
use qarunner.Run.{Run, RunState, invalid_run, run_state_value}
use qarunner.Run.Attempts.{is_retried_state, same_decision}

-- `ensure_expected_version` on the Run.
unfoldable pub expect_version : Run → ℤ → Command (Unit {0})
unfolding ensure_expected_version
expect_version r expected = ensure_expected_version "run" r.id r.version expected

-- `_require_utc_command_time`.
unfoldable pub command_time : String → DateTime → Command (Unit {0})
command_time field t = raise_if (not (is_utc t)) (invalid_run field "not_utc")

abbrev pub refused_run : Run → RunState → ℤ → DomainError
refused_run r target expected =
    invalid_transition "run" r.id (run_state_value r.state) (run_state_value target) r.version
      expected

-- `_current_attempt`.
unfoldable pub latest_is : Run → String → Option Attempt → Command Attempt
latest_is r id none = raised (review_required r.id id r.current_fence "source_attempt_not_current")
latest_is r id (some a) = do
  raise_if (not (same a.id id) || not (same a.run_id r.id))
      (review_required r.id id r.current_fence "source_attempt_not_current")
  raise_if (not (a.fence == r.current_fence)) (stale_fence a.id r.current_fence a.fence)
  ok a

unfoldable pub current_attempt : Run → String → Command Attempt
unfolding latest_is
current_attempt r id = latest_is r id (last r.attempts)

-- `(*self.attempts[:-1], updated)`.
abbrev pub with_latest : Run → Attempt → List Attempt
with_latest r a = qarunner.Prelude.with_last r.attempts a

-- `_replace_current_assignment`.
assignments_discrete : Discrete (List Assignment)
assignments_discrete = hlevel (ℕ_discrete, String-discrete)

abbrev pub swapped : Option String → Assignment → List Assignment → List Assignment
swapped id s [] = []
swapped id s (t ∷ rest) = (if texts_differ (some t.id) id then t else s) ∷ swapped id s rest

unfoldable pub replace_current_assignment : Run → Assignment → Command (List Assignment)
unfolding assignments_discrete
replace_current_assignment r s = do
  raise_if (texts_differ (some s.id) r.current_assignment_id)
      (assignment_conflict r.id s.id "current_assignment_missing")
  raise_if
      (holds (assignments_discrete (swapped r.current_assignment_id s r.assignments) r.assignments))
      (assignment_conflict r.id s.id "current_assignment_missing")
  ok (swapped r.current_assignment_id s r.assignments)

-- `_ensure_retry_intent_authoritative`, by the kind of authority.
unfoldable pub adjudicated_by :
    Hash
    → Run
    → RetryIntent
    → UnknownAdjudicationRetryAuthority
    → Attempt
    → Option UnknownAdjudication
    → Command (Unit {0})
adjudicated_by sha256 r i u source none =
    raised (retry_not_allowed r.id source.id u.adjudication_id "adjudication_missing")
adjudicated_by sha256 r i u source (some j) = do
  raise_if (not (same j.id u.adjudication_id))
      (retry_not_allowed r.id source.id u.adjudication_id "adjudication_not_current")
  raise_if (not (permits_retry j.decision))
      (retry_not_allowed r.id source.id j.id "decision_does_not_permit_retry")
  raise_if
      (not (same i.run_id r.id)
        || not (i.source_attempt_no == source.attempt_no)
        || not (i.source_fence == source.fence)
        || not (digest_eq u.adjudication_digest (adjudication_digest sha256 j))
        || not (same_decision u.decision j.decision)
        || not (digest_eq i.execution_spec_digest source.spec_digest)
        || before i.created_at j.occurred_at)
      (retry_not_allowed r.id source.id j.id "retry_intent_mismatch")

unfoldable pub authorised_by :
    Hash → Run → RetryIntent → Attempt → RetryAuthority → Command (Unit {0})
unfolding adjudicated_by
authorised_by sha256 r i source (by_policy p) =
    raise_if
      (not (is_retried_state p.source_outcome source.state)
        || not (same i.run_id r.id)
        || not (i.source_attempt_no == source.attempt_no)
        || not (i.source_fence == source.fence)
        || not (digest_eq i.execution_spec_digest source.spec_digest))
      (retry_not_allowed r.id source.id "" "retry_intent_mismatch")
authorised_by sha256 r i source (adjudicated u) = do
  raise_if (not (is_unknown source.state))
      (retry_not_allowed r.id source.id u.adjudication_id "source_attempt_not_unknown")
  adjudicated_by sha256 r i u source (last source.adjudications)

unfoldable pub ensure_retry_intent_authoritative :
    Hash → Run → RetryIntent → Attempt → Command (Unit {0})
unfolding authorised_by
ensure_retry_intent_authoritative sha256 r i source = authorised_by sha256 r i source i.authority
