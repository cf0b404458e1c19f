-- ===== src/Run/Lookups.antt =====
-- The lookups of a Run by identity.
use qarunner.Prelude.{
  Bool, List, Option, String, [], false, first_such, joined, last_such, none, same, some, true, ◌∷◌,
}
use qarunner.Assignment.{Assignment, AssignmentState, claimed, committed, offered}
use qarunner.Attempt.{Attempt}
use qarunner.Retry.{RetryIntent}
use qarunner.Run.{Run}

-- The scope of an idempotency conflict, `f"run:{self.id}:…"`.
abbrev pub scope_of : Run → String → String
scope_of r command = joined ("run:" ∷ r.id ∷ ":" ∷ command ∷ [])

-- `_assignment_by_id`, and `assignments_by_id.get(id)`: the ids are distinct when it is used.
unfoldable pub find_assignment : String → List Assignment → Option Assignment
unfolding first_such
find_assignment id = first_such (λ s. same s.id id)

unfoldable pub find_attempt : String → List Attempt → Option Attempt
unfolding first_such
find_attempt id = first_such (λ a. same a.id id)

unfoldable pub find_intent : String → List RetryIntent → Option RetryIntent
unfolding first_such
find_intent id = first_such (λ i. same i.id id)

unfoldable pub current_of : Option String → List Assignment → Option Assignment
unfolding last_such
current_of none xs = none
current_of (some id) xs = last_such (λ s. same s.id id) xs

-- The property `assignment`.
unfoldable pub assignment_of : Run → Option Assignment
unfolding current_of
assignment_of r = current_of r.current_assignment_id r.assignments

pending_of : Option String → List RetryIntent → Option RetryIntent
unfolding last_such
pending_of none xs = none
pending_of (some id) xs = last_such (λ i. same i.id id) xs

-- The property `pending_retry_intent`.
unfoldable pub pending_retry_intent : Run → Option RetryIntent
unfolding pending_of
pending_retry_intent r = pending_of r.pending_retry_intent_id r.retry_intents

-- The state tests of an Assignment.
abbrev pub is_committed : AssignmentState → Bool
is_committed committed = true
is_committed _ = false

abbrev pub is_open : AssignmentState → Bool
is_open offered = true
is_open claimed = true
is_open _ = false
