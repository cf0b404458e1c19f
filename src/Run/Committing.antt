-- ===== src/Run/Committing.antt =====
-- `commit_start`: the start of a claimed reservation becomes an Attempt with the next fence.
use qarunner.Prelude.{
  Bool, List, Option, String, [], any, false, first_such, is_some, last, length, none, not, ok, pos,
  raise_if, raised, same, some, texts_differ, true, ℕ, ℤ, ◌++◌, ◌+◌, ◌==◌, ◌>>=◌, ◌>>◌, ◌||◌, ◌∷◌,
}
use qarunner.Values.{
  Command, DateTime, Digest, WorkerRef, assignment_conflict, at_most, attempt_conflict, before,
  digest_eq, idempotency_conflict, ref_eq, retry_not_allowed, stale_fence,
}
use qarunner.Values.Canonical.{Hash, canonical_digest, digest_json, end, member, num, obj, str}
use qarunner.Assignment.{Assignment, AssignmentState, claimed, commit}
use qarunner.Attempt.{Attempt, is_terminal, running}
use qarunner.Attempt.Commands
use qarunner.Retry.{RetryIntent, RetryProvenance, adjudication_id, from_intent}
use qarunner.Run.{Run, is_assigned, is_running, running}
use qarunner.Run.Lookups.{assignment_of, is_committed, pending_retry_intent, scope_of}
use qarunner.Run.Current.{
  command_time, current_attempt, ensure_retry_intent_authoritative, expect_version,
  replace_current_assignment,
}
use qarunner.Run.Aggregate.{run_post_init}

pub record CommitStartResult : Type 0 where
  pub run : Run
  pub attempt : Attempt
  pub fence : ℕ
  pub replayed : Bool

-- `_start_commit_digest`.
unfoldable pub start_commit_digest : Hash → String → WorkerRef → Digest → Command Digest
unfolding canonical_digest
start_commit_digest sha256 assignment_id worker spec =
    canonical_digest sha256 "qep.start-commit.v1" (
      obj (
        member "assignment_id" (str assignment_id) (
          member "worker_id" (str worker.worker_id) (
            member "worker_generation" (num (pos worker.generation))
              (member "spec_digest" (digest_json spec) end)))))

abbrev pub not_current : Option Assignment → Attempt → Bool
not_current none a = true
not_current (some s) a = not (same s.id a.assignment_id) || not (is_committed s.state)

abbrev pub not_latest : Option Attempt → Attempt → Bool
not_latest none a = true
not_latest (some l) a = not (same l.id a.id)

-- The key is stored: a replay of the same request gets the same Attempt, while it is in progress.
unfoldable pub replay_commit : Hash → Run → String → Digest → Attempt → Command CommitStartResult
unfolding start_commit_digest
replay_commit sha256 r key received a = do
  stored ← start_commit_digest sha256 a.assignment_id a.worker a.spec_digest
  raise_if (not (digest_eq stored received))
      (idempotency_conflict (scope_of r "start-commit") key stored received)
  raise_if (not (a.fence == r.current_fence)) (stale_fence a.id r.current_fence a.fence)
  raise_if
      (not (is_running r.state)
        || not_current (assignment_of r) a
        || not_latest (last r.attempts) a
        || is_terminal a.state)
      (assignment_conflict r.id a.assignment_id "start_commit_superseded")
  ok (record { run = r; attempt = a; fence = a.fence; replayed = true })

abbrev pub is_claimed : AssignmentState → Bool
is_claimed claimed = true
is_claimed _ = false

-- A claimed reservation has a time of its claim.
abbrev pub claimed_after : Option DateTime → DateTime → Bool
claimed_after none t = true
claimed_after (some u) t = before t u

-- The provenance of the new Attempt, by the latest Attempt and the pending intent.
unfoldable pub commit_provenance :
    Hash
    → Run
    → Assignment
    → Digest
    → Option Attempt
    → Option RetryIntent
    → Command (Option RetryProvenance)
unfolding current_attempt ensure_retry_intent_authoritative from_intent
commit_provenance sha256 r s spec (some latest) none =
    raised (retry_not_allowed r.id latest.id "" "retry_intent_not_pending")
commit_provenance sha256 r s spec (some latest) (some i) = do
  raise_if (texts_differ s.retry_intent_id (some i.id))
      (retry_not_allowed r.id latest.id (adjudication_id i.authority) "retry_intent_not_pending")
  raise_if
      (not (digest_eq spec i.execution_spec_digest)
        || not (digest_eq s.spec_digest i.execution_spec_digest))
      (retry_not_allowed r.id i.source_attempt_id (adjudication_id i.authority)
        "retry_spec_mismatch")
  source ← current_attempt r i.source_attempt_id
  ensure_retry_intent_authoritative sha256 r i source
  p ← from_intent sha256 i
  ok (some p)
commit_provenance sha256 r s spec none (some i) = raised (
    retry_not_allowed r.id i.source_attempt_id (adjudication_id i.authority)
      "retry_intent_not_pending")
commit_provenance sha256 r s spec none none = do
  raise_if (is_some s.retry_intent_id) (retry_not_allowed r.id "" "" "retry_intent_not_pending")
  ok none

abbrev pub committed_run : Run → List Assignment → Attempt → Run
committed_run r xs a = record r {
  state = running;
  version = r.version + 1;
  current_fence = r.current_fence + 1;
  assignments = xs;
  attempts = r.attempts ++ a ∷ [];
  pending_retry_intent_id = none;
}

unfoldable pub commit_current :
    Hash
    → Run
    → (assignment_id : String) (worker : WorkerRef) (key : String) (spec : Digest)
      (attempt_id : String) (at : DateTime)
    → Option Assignment
    → Command CommitStartResult
unfolding commit_provenance Commands.create replace_current_assignment
commit_current sha256 r id worker key spec attempt_id at none =
    raised (assignment_conflict r.id id "assignment_not_claimed")
commit_current sha256 r id worker key spec attempt_id at (some s) = do
  raise_if
      (not (is_assigned r.state)
        || not (same s.id id)
        || not (ref_eq s.worker worker)
        || not (digest_eq s.spec_digest spec)
        || not (is_claimed s.state))
      (assignment_conflict r.id id "assignment_not_claimed")
  raise_if (at_most s.expires_at at) (assignment_conflict r.id id "assignment_expired")
  raise_if (claimed_after s.claimed_at at) (assignment_conflict r.id id "commit_before_claim")
  raise_if (any (λ a. same a.id attempt_id) r.attempts)
      (attempt_conflict r.id attempt_id "attempt_id_reused")
  provenance ← commit_provenance sha256 r s spec (last r.attempts) (pending_retry_intent r)
  a ←
      Commands.create sha256 attempt_id r.id (length r.attempts + 1) (r.current_fence + 1) id worker
        spec key provenance
  done ← commit s at
  xs ← replace_current_assignment r done
  next ← run_post_init sha256 (committed_run r xs a)
  ok (record { run = next; attempt = a; fence = r.current_fence + 1; replayed = false })

unfoldable pub commit_keyed :
    Hash
    → Run
    → (assignment_id : String) (worker : WorkerRef) (key : String) (spec : Digest)
      (attempt_id : String) (at : DateTime) (expected : ℤ) (received : Digest)
    → Option Attempt
    → Command CommitStartResult
unfolding replay_commit expect_version command_time commit_current
commit_keyed sha256 r id worker key spec attempt_id at expected received (some a) =
    replay_commit sha256 r key received a
commit_keyed sha256 r id worker key spec attempt_id at expected received none = do
  expect_version r expected
  command_time "observed_at" at
  commit_current sha256 r id worker key spec attempt_id at (assignment_of r)

-- `next((a for a in self.attempts if a.start_commit_key == key), None)`.
unfoldable pub find_commit : String → List Attempt → Option Attempt
unfolding first_such
find_commit key = first_such (λ a. same a.start_commit_key key)

unfoldable pub commit_start :
    Hash
    → Run
    → (assignment_id : String) (worker : WorkerRef) (start_commit_key : String)
      (spec_digest : Digest) (new_attempt_id : String) (observed_at : DateTime)
      (expected_version : ℤ)
    → Command CommitStartResult
unfolding start_commit_digest commit_keyed find_commit
commit_start sha256 r id worker key spec attempt_id at expected = do
  received ← start_commit_digest sha256 id worker spec
  commit_keyed sha256 r id worker key spec attempt_id at expected received
      (find_commit key r.attempts)
