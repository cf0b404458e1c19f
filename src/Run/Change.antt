-- ===== src/Run/Change.antt =====
-- What a Run promises: the ways in which it changes, as a step relation.
use qarunner.Prelude.{
  List, Option, String, false, last, length, none, ok, some, true, ◌+◌, ◌≡◌, ◌⊎◌,
}
use qarunner.Values.{Digest, WorkerRef}
use qarunner.Values.Canonical.{Hash}
use qarunner.Assignment.{Assignment}
use qarunner.Attempt.{Attempt, is_terminal, running}
use qarunner.Attempt.Commands.{create}
use qarunner.Attempt.History.Traces.{Request, apply}
use qarunner.Retry.{RetryIntent, RetryProvenance}
use qarunner.Cancellation.{CancellationIntent}
use qarunner.Evidence.Stop.{TrustedCancellationStop}
use qarunner.Run.{Run, assigned, planned, queued, retry_queued, running}
use qarunner.Run.Scheduling.{offered_run, reserved_run}
use qarunner.Run.Committing.{committed_run}
use qarunner.Run.Closing.{intended_run, resumed_run, unreserved_run}
use qarunner.Run.Execution.{attempt_run, converged_run}
use qarunner.Run.Retries.{retried_run}

abbrev pub queued_run : Run → Run
queued_run r = record r { state = queued; version = r.version + 1 }

pub data Change (sha256 : Hash) (r : Run) : Run → Type 0 where
  -- A planned Run enters the queue.
  enter : r.state ≡ planned → Change sha256 r (queued_run r)
  -- A queued Run is reserved, and its reservation is claimed.
  reserve :
      (s : Assignment)
      → (r.state ≡ queued) ⊎ (r.state ≡ retry_queued)
      → Change sha256 r (offered_run r s)
  accept : (xs : List Assignment) → r.state ≡ assigned → Change sha256 r (reserved_run r xs)
  -- A claimed reservation becomes an Attempt with the next number and the next fence.
  start :
      (xs : List Assignment) (attempt_id assignment_id : String) (worker : WorkerRef)
      (spec : Digest) (key : String) (provenance : Option RetryProvenance) (a : Attempt)
      → r.state ≡ assigned
      → create sha256 attempt_id r.id
          (length r.attempts + 1)
          (r.current_fence + 1)
          assignment_id
          worker
          spec
          key
          provenance
        ≡ ok a
      → Change sha256 r (committed_run r xs a)
  -- A reservation is closed before its start: the Run waits again.
  resume :
      (s : Assignment) (xs : List Assignment)
      → r.state ≡ assigned
      → Change sha256 r (resumed_run r s xs)
  -- The one cancellation intent is recorded; a Run that has not started ends with it.
  cancel_reserved :
      (c : CancellationIntent) (xs : List Assignment)
      → r.state ≡ assigned
      → r.cancel_intent ≡ none
      → Change sha256 r (unreserved_run r c xs)
  intend :
      (c : CancellationIntent)
      → (r.state ≡ queued) ⊎ (r.state ≡ running) ⊎ (r.state ≡ retry_queued)
      → r.cancel_intent ≡ none
      → Change sha256 r (intended_run r c)
  -- The latest Attempt takes a command, while it has not ended or the Run is running.
  advance :
      (old a : Attempt) (q : Request)
      → last r.attempts ≡ some old
      → apply sha256 old q ≡ ok a
      → (is_terminal old.state ≡ false) ⊎ (r.state ≡ running)
      → Change sha256 r (attempt_run r a)
  -- The latest Attempt ends as cancelled, and its Run with it.
  conclude :
      (old a : Attempt) (q : Request) (s : TrustedCancellationStop)
      → last r.attempts ≡ some old
      → apply sha256 old q ≡ ok a
      → r.state ≡ running
      → Change sha256 r (converged_run r a s)
  -- The latest Attempt has ended, and the Run waits for its retry.
  requeue :
      (old : Attempt) (i : RetryIntent)
      → last r.attempts ≡ some old
      → is_terminal old.state ≡ true
      → r.state ≡ running
      → r.cancel_intent ≡ none
      → Change sha256 r (retried_run r i)
