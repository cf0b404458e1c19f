-- ===== src/Run.antt =====
-- domain/run.py: the aggregate of one Run, with its reservations, Attempts and retry intents. This
-- file has its state and lookups. Assignments, Intents, Pointers and Aggregate are what its
-- constructor checks; Scheduling, Closing, Execution and Retries are its commands.
pub mod Lookups
pub mod Attempts
pub mod Assignments
pub mod Cancelling
pub mod Pointers
pub mod Aggregate
pub mod Current
pub mod Scheduling
pub mod Committing
pub mod Closing
pub mod Execution
pub mod Retries
pub mod Change
pub mod Refinement
pub mod Invariant
pub mod History
mod Examples
use qarunner.Prelude.{Bool, List, Option, String, false, true, ℕ}
use qarunner.Values.{DomainError, invalid}
use qarunner.Assignment.{Assignment}
use qarunner.Attempt.{Attempt}
use qarunner.Retry.{RetryIntent}
use qarunner.Cancellation.{CancellationIntent}
use qarunner.Evidence.Stop.{TrustedCancellationStop}

pub data RunState : Type 0 where
  planned : RunState
  queued : RunState
  assigned : RunState
  running : RunState
  retry_queued : RunState
  run_cancelled : RunState

abbrev pub run_state_value : RunState → String
run_state_value planned = "planned"
run_state_value queued = "queued"
run_state_value assigned = "assigned"
run_state_value running = "running"
run_state_value retry_queued = "retry_queued"
run_state_value run_cancelled = "cancelled"

pub record Run : Type 0 where
  pub id : String
  pub state : RunState
  pub version : ℕ
  pub current_fence : ℕ
  pub assignments : List Assignment
  pub current_assignment_id : Option String
  pub attempts : List Attempt
  pub retry_intents : List RetryIntent
  pub pending_retry_intent_id : Option String
  pub cancel_intent : Option CancellationIntent
  pub cancellation_stop : Option TrustedCancellationStop

-- `_invalid_run`.
abbrev pub invalid_run : String → String → DomainError
invalid_run = invalid "run"

-- The state tests.
abbrev pub is_planned : RunState → Bool
is_planned planned = true
is_planned _ = false

abbrev pub is_queued : RunState → Bool
is_queued queued = true
is_queued _ = false

abbrev pub is_assigned : RunState → Bool
is_assigned assigned = true
is_assigned _ = false

abbrev pub is_running : RunState → Bool
is_running running = true
is_running _ = false

abbrev pub is_retry_queued : RunState → Bool
is_retry_queued retry_queued = true
is_retry_queued _ = false

abbrev pub is_cancelled : RunState → Bool
is_cancelled run_cancelled = true
is_cancelled _ = false
