-- ===== src/Run/Refinement/Retrying.antt =====
-- The commands that adjudicate an unknown Attempt and those that queue a retry.
use qarunner.Prelude.{
  >>=-eq-ok, Option, String, arith, inl, inr, is_some, none, not, ok, raise_if, refl, some, true, ℤ,
  ◌&&◌, ◌||◌, ◌≡◌,
}
use qarunner.Values.Canonical.{Hash}
use qarunner.Unknown.{UnknownAdjudication}
use qarunner.Attempt.{Attempt, AttemptState, is_terminal, is_unknown}
use qarunner.Attempt.Commands.{append_unknown_adjudication}
use qarunner.Attempt.History.Traces.{adjudicate, apply}
use qarunner.Retry.{
  AttemptExecutionFact, RetryAuthority, RetryIntent, adjudicated, by_policy, intent_digest,
}
use qarunner.Run.{Run, is_running}
use qarunner.Run.Attempts.{is_retried_state}
use qarunner.Run.Lookups.{assignment_of, find_intent, pending_retry_intent}
use qarunner.Run.Pointers.{not_committed}
use qarunner.Run.Current.{
  authorised_by, current_attempt, ensure_retry_intent_authoritative, expect_version,
}
use qarunner.Run.Change.{requeue}
use qarunner.Run.Refinement.{Accepted, expect_version-same, made}
use qarunner.Run.Execution.{unchanged}
use qarunner.Run.Retries.{
  append_current_unknown_adjudication, ensure_policy_authority, is_retry, queue_adjudicated,
  queue_adjudicated_retry, queue_by_policy, queue_policy_retry, replay_intent, retried_run,
}
use qarunner.Run.Refinement.Executing.{current_attempt-last, store_changed-Accepted}
use qarunner.RetryPolicy.{RunRetryDecision}

pub append_current_unknown_adjudication-Accepted :
    (sha256 : Hash) (r v : Run) (id : String) (j : UnknownAdjudication) (expected at : ℤ)
    → append_current_unknown_adjudication sha256 r id j expected at ≡ ok v
    → Accepted sha256 r expected v
unfolding append_current_unknown_adjudication apply
append_current_unknown_adjudication-Accepted sha256 r v id j expected at h =
    let (old, e1, h1) = >>=-eq-ok (current_attempt r id) _ h in
    let (a, e2, h2) = >>=-eq-ok (append_unknown_adjudication sha256 old j at) _ h1 in
    let (u, e3, h3) =
      >>=-eq-ok
        (raise_if
          (not (unchanged old a) && (is_some (pending_retry_intent r) || not (is_running r.state)))
          _)
        _ h2 in
    store_changed-Accepted sha256 r v old a (adjudicate j at) expected (unchanged old a)
      (current_attempt-last r id old e1) e2 (λ n. inr (ground (arith, e3, n))) h3

replay_intent-same :
    (sha256 : Hash) (r v : Run) (stored i : RetryIntent)
    → replay_intent sha256 r stored i ≡ ok v
    → v ≡ r
unfolding replay_intent
replay_intent-same sha256 r v stored i h =
    let (d, e1, h1) = >>=-eq-ok (intent_digest sha256 stored) _ h in
    let (d', e2, h2) = >>=-eq-ok (intent_digest sha256 i) _ h1 in ground (arith, h2)

is_retried_state-terminal :
    (f : AttemptExecutionFact) (s : AttemptState)
    → is_retried_state f s ≡ true
    → is_terminal s ≡ true
is_retried_state-terminal f AttemptState.start_committed h = ground (arith, h)
is_retried_state-terminal f AttemptState.provisioning h = ground (arith, h)
is_retried_state-terminal f AttemptState.running h = ground (arith, h)
is_retried_state-terminal f AttemptState.uploading h = ground (arith, h)
is_retried_state-terminal f _ h = refl

-- An authority of either kind is for an Attempt that has ended.
authorised_by-terminal :
    (sha256 : Hash) (r : Run) (i : RetryIntent) (a : Attempt) (t : RetryAuthority) (u : Unit {0})
    → authorised_by sha256 r i a t ≡ ok u
    → is_terminal a.state ≡ true
unfolding authorised_by
authorised_by-terminal sha256 r i a (by_policy p) u h =
    is_retried_state-terminal p.source_outcome a.state (ground (arith, h))
authorised_by-terminal sha256 r i a (adjudicated t) u h =
    let (u', e1, h1) = >>=-eq-ok (raise_if (not (is_unknown a.state)) _) _ h in ground (arith, e1)

queue_adjudicated-Accepted :
    (sha256 : Hash) (r v : Run) (i : RetryIntent) (expected : ℤ) (o : Option RetryIntent)
    → queue_adjudicated sha256 r i expected o ≡ ok v
    → Accepted sha256 r expected v
unfolding queue_adjudicated ensure_retry_intent_authoritative
queue_adjudicated-Accepted sha256 r v i expected (some stored) h =
    inl (replay_intent-same sha256 r v stored i h)
queue_adjudicated-Accepted sha256 r v i expected none h =
    let (a, e1, h1) = >>=-eq-ok (current_attempt r i.source_attempt_id) _ h in
    let (u, e2, h2) = >>=-eq-ok (authorised_by sha256 r i a i.authority) _ h1 in
    let (u', e3, h3) = >>=-eq-ok (raise_if (is_some r.cancel_intent) _) _ h2 in
    let (u'', e4, h4) =
      >>=-eq-ok (raise_if (not (is_running r.state) || is_some (pending_retry_intent r)) _) _ h3 in
    let (u3, e5, h5) = >>=-eq-ok (raise_if (not_committed (assignment_of r)) _) _ h4 in
    let (u4, e6, h6) = >>=-eq-ok (expect_version r expected) _ h5 in
    made sha256 r (retried_run r i) v expected (expect_version-same r expected u4 e6)
      (requeue a i (current_attempt-last r i.source_attempt_id a e1)
        (authorised_by-terminal sha256 r i a i.authority u e2) (ground (arith, e4))
        (ground (arith, e3)))
      h6

pub queue_adjudicated_retry-Accepted :
    (sha256 : Hash) (r v : Run) (i : RetryIntent) (expected : ℤ)
    → queue_adjudicated_retry sha256 r i expected ≡ ok v
    → Accepted sha256 r expected v
unfolding queue_adjudicated_retry
queue_adjudicated_retry-Accepted sha256 r v i expected h =
    queue_adjudicated-Accepted sha256 r v i expected (find_intent i.id r.retry_intents) h

ensure_policy_authority-terminal :
    (sha256 : Hash) (r : Run) (i : RetryIntent) (d : RunRetryDecision) (a : Attempt)
    (t : RetryAuthority) (u : Unit {0})
    → ensure_policy_authority sha256 r i d a t ≡ ok u
    → is_terminal a.state ≡ true
unfolding ensure_policy_authority
ensure_policy_authority-terminal sha256 r i d a (adjudicated t) u h = ground (arith, h)
ensure_policy_authority-terminal sha256 r i d a (by_policy p) u h =
    let (u1, e1, h1) = >>=-eq-ok (raise_if (not (is_retry d.decision)) _) _ h in
    let (g, e2, h2) = >>=-eq-ok (intent_digest sha256 i) _ h1 in
    is_retried_state-terminal p.source_outcome a.state (ground (arith, h2))

queue_by_policy-Accepted :
    (sha256 : Hash) (r v : Run) (i : RetryIntent) (d : RunRetryDecision) (expected : ℤ)
    (o : Option RetryIntent)
    → queue_by_policy sha256 r i d expected o ≡ ok v
    → Accepted sha256 r expected v
unfolding queue_by_policy
queue_by_policy-Accepted sha256 r v i d expected (some stored) h =
    inl (replay_intent-same sha256 r v stored i h)
queue_by_policy-Accepted sha256 r v i d expected none h =
    let (a, e1, h1) = >>=-eq-ok (current_attempt r i.source_attempt_id) _ h in
    let (u', e3, h3) = >>=-eq-ok (raise_if (is_some r.cancel_intent) _) _ h1 in
    let (u'', e4, h4) =
      >>=-eq-ok (raise_if (not (is_running r.state) || is_some (pending_retry_intent r)) _) _ h3 in
    let (u, e2, h5) = >>=-eq-ok (ensure_policy_authority sha256 r i d a i.authority) _ h4 in
    let (u4, e6, h6) = >>=-eq-ok (expect_version r expected) _ h5 in
    made sha256 r (retried_run r i) v expected (expect_version-same r expected u4 e6)
      (requeue a i (current_attempt-last r i.source_attempt_id a e1)
        (ensure_policy_authority-terminal sha256 r i d a i.authority u e2) (ground (arith, e4))
        (ground (arith, e3)))
      h6

pub queue_policy_retry-Accepted :
    (sha256 : Hash) (r v : Run) (i : RetryIntent) (d : RunRetryDecision) (expected : ℤ)
    → queue_policy_retry sha256 r i d expected ≡ ok v
    → Accepted sha256 r expected v
unfolding queue_policy_retry
queue_policy_retry-Accepted sha256 r v i d expected h =
    queue_by_policy-Accepted sha256 r v i d expected (find_intent i.id r.retry_intents) h
