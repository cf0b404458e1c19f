-- ===== src/Run/Scheduling.antt =====
-- The commands that create, queue and reserve a Run.
use qarunner.Prelude.{
  Bool, List, Option, String, [], any, false, is_some, last, none, not, ok, raise_if, raised, same,
  some, true, ℤ, ◌&&◌, ◌++◌, ◌+◌, ◌>>=◌, ◌>>◌, ◌||◌, ◌∷◌,
}
use qarunner.Values.{
  Command, DateTime, Digest, WorkerAuthority, WorkerRef, assignment_conflict, at_most, before,
  digest_eq, ref_eq, retry_not_allowed,
}
use qarunner.Values.Canonical.{Hash}
use qarunner.Worker.{WorkerGeneration, claimable_ref}
use qarunner.Assignment.{Assignment, AssignmentState, claim, offer, offered}
use qarunner.Attempt.{Attempt}
use qarunner.Retry.{RetryIntent, adjudication_id}
use qarunner.Run.{Run, RunState, assigned, is_assigned, is_queued, is_retry_queued, planned, queued}
use qarunner.Run.Lookups.{assignment_of, pending_retry_intent}
use qarunner.Run.Current.{command_time, expect_version, refused_run, replace_current_assignment}
use qarunner.Run.Aggregate.{run_post_init}

abbrev pub planned_run : String → Run
planned_run run_id = record {
  id = run_id;
  state = planned;
  version = 0;
  current_fence = 0;
  assignments = [];
  current_assignment_id = none;
  attempts = [];
  retry_intents = [];
  pending_retry_intent_id = none;
  cancel_intent = none;
  cancellation_stop = none;
}

unfoldable pub create_run : Hash → String → Command Run
create_run sha256 run_id = run_post_init sha256 (planned_run run_id)

-- `_ALLOWED_TRANSITIONS[state]` holds the target.
abbrev pub allowed_run_transitions : RunState → RunState → Bool
allowed_run_transitions planned queued = true
allowed_run_transitions _ _ = false

unfoldable pub transition_run : Hash → Run → RunState → ℤ → Command Run
unfolding expect_version
transition_run sha256 r target expected = do
  expect_version r expected
  raise_if (not (allowed_run_transitions r.state target)) (refused_run r target expected)
  run_post_init sha256 (record r { state = target; version = r.version + 1 })

abbrev attempt_id? : Option Attempt → String
attempt_id? none = ""
attempt_id? (some a) = a.id

-- The first reservation has another execution spec.
abbrev pub first_spec_differs : List Assignment → Digest → Bool
first_spec_differs [] spec = false
first_spec_differs (s ∷ rest) spec = not (digest_eq spec s.spec_digest)

-- The tests of `offer_assignment` that look at the pending intent; the id that is offered with.
unfoldable pub offered_intent : Run → Digest → Option RetryIntent → Command (Option String)
offered_intent r spec none = do
  raise_if (is_retry_queued r.state)
      (retry_not_allowed r.id (attempt_id? (last r.attempts)) "" "retry_intent_not_pending")
  ok none
offered_intent r spec (some i) = do
  raise_if (is_queued r.state) (
      retry_not_allowed r.id i.source_attempt_id (adjudication_id i.authority)
        "retry_intent_not_pending")
  raise_if (not (digest_eq spec i.execution_spec_digest)) (
      retry_not_allowed r.id i.source_attempt_id (adjudication_id i.authority)
        "retry_spec_mismatch")
  ok (some i.id)

abbrev pub offered_run : Run → Assignment → Run
offered_run r s = record r {
  state = assigned;
  assignments = r.assignments ++ s ∷ [];
  current_assignment_id = some s.id;
  version = r.version + 1;
}

unfoldable pub offer_assignment :
    Hash
    → Run
    → (assignment_id : String) (worker : WorkerGeneration) (authority : WorkerAuthority)
      (spec_digest : Digest) (offered_at expires_at : DateTime) (expected_version : ℤ)
    → Command Run
unfolding expect_version offered_intent
offer_assignment sha256 r id worker authority spec offered_at expires_at expected = do
  expect_version r expected
  raise_if (not (is_queued r.state || is_retry_queued r.state) || is_some (assignment_of r))
      (assignment_conflict r.id id "run_not_queued")
  raise_if (any (λ s. same s.id id) r.assignments)
      (assignment_conflict r.id id "assignment_id_reused")
  raise_if (is_queued r.state && first_spec_differs r.assignments spec)
      (assignment_conflict r.id id "spec_digest_mismatch")
  intent_id ← offered_intent r spec (pending_retry_intent r)
  ref ← claimable_ref worker authority
  s ← offer id ref spec offered_at expires_at intent_id
  run_post_init sha256 (offered_run r s)

abbrev pub is_offered : AssignmentState → Bool
is_offered offered = true
is_offered _ = false

abbrev pub reserved_run : Run → List Assignment → Run
reserved_run r xs = record r { assignments = xs; version = r.version + 1 }

-- `claim_assignment`, on the current reservation.
unfoldable pub claim_current :
    Hash → Run → String → WorkerRef → DateTime → Option Assignment → Command Run
unfolding replace_current_assignment
claim_current sha256 r id worker at none = raised (assignment_conflict r.id id "offer_mismatch")
claim_current sha256 r id worker at (some s) = do
  raise_if
      (not (is_assigned r.state)
        || not (same s.id id)
        || not (ref_eq s.worker worker)
        || not (is_offered s.state))
      (assignment_conflict r.id id "offer_mismatch")
  raise_if (at_most s.expires_at at) (assignment_conflict r.id id "assignment_expired")
  raise_if (before at s.offered_at) (assignment_conflict r.id id "assignment_not_effective")
  taken ← claim s at
  xs ← replace_current_assignment r taken
  run_post_init sha256 (reserved_run r xs)

unfoldable pub claim_assignment : Hash → Run → String → WorkerRef → DateTime → ℤ → Command Run
unfolding expect_version command_time claim_current
claim_assignment sha256 r id worker at expected = do
  expect_version r expected
  command_time "observed_at" at
  claim_current sha256 r id worker at (assignment_of r)
