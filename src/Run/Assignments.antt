-- ===== src/Run/Assignments.antt =====
-- `_validate_normalized_history`, second half: the reservations and their order.
use qarunner.Prelude.{
  Bool, List, Option, String, [], any, false, has_repeat, if◌then◌else◌, last, leb, map, none, not,
  ok, raise_if, raised, same, some, texts_differ, true, ℕ, ◌&&◌, ◌+◌, ◌==◌, ◌>>◌, ◌||◌, ◌∷◌,
}
use qarunner.Values.{Command, DateTime, before, digest_eq}
use qarunner.Values.Canonical.{Hash}
use qarunner.Assignment.{
  Assignment, AssignmentClosure, AssignmentState, claimed, committed, offered,
}
use qarunner.Retry.{RetryIntent}
use qarunner.Run.{Run, invalid_run}
use qarunner.Run.Lookups.{find_intent, is_committed, pending_retry_intent}
use qarunner.Run.Attempts.{
  attempts_check, intents_check, latest_fence, not_from_latest, pointer_check, repeats_authority,
}

-- `assignment.retry_intent_id == retry_intent_id` with an intent that must be there.
unfoldable pub intent_backs : Assignment → Option RetryIntent → Command (Unit {0})
intent_backs s none = raised (invalid_run "assignments" "retry_intent_mismatch")
intent_backs s (some i) = do
  raise_if (not (digest_eq s.spec_digest i.execution_spec_digest))
      (invalid_run "assignments" "retry_intent_mismatch")
  raise_if (before s.offered_at i.created_at)
      (invalid_run "assignments" "offered_before_retry_intent")

unfoldable pub epoch_check : Run → Assignment → Option String → Command (Unit {0})
unfolding intent_backs
epoch_check r s none = ok tt
epoch_check r s (some id) = intent_backs s (find_intent id r.retry_intents)

-- The last part of the loop, by the state of the reservation.
unfoldable pub standing_check : Run → Assignment → AssignmentState → Command (Unit {0})
standing_check r s committed =
    raise_if (not (any (λ a. same a.assignment_id s.id) r.attempts))
      (invalid_run "assignments" "committed_without_attempt")
standing_check r s offered =
    raise_if (texts_differ r.current_assignment_id (some s.id))
      (invalid_run "assignments" "historical_reservation_not_committed")
standing_check r s claimed =
    raise_if (texts_differ r.current_assignment_id (some s.id))
      (invalid_run "assignments" "historical_reservation_not_committed")
standing_check r s _ =
    raise_if (not (texts_differ r.current_assignment_id (some s.id)))
      (invalid_run "assignments" "closed_reservation_current")

-- The loop over the reservations.
unfoldable pub reservations_check : Run → List Assignment → Command (Unit {0})
unfolding epoch_check standing_check
reservations_check r [] = ok tt
reservations_check r (s ∷ rest) = do
  epoch_check r s s.retry_intent_id
  standing_check r s s.state
  reservations_check r rest

-- `retry_intent_epochs[intent.id]`: the place of an intent, from 1.
abbrev pub epoch_from : ℕ → String → List RetryIntent → ℕ
epoch_from n id [] = 0
epoch_from n id (i ∷ is) = let rest = epoch_from (n + 1) id is in if same i.id id then n else rest

abbrev pub epoch_of : List RetryIntent → Option String → ℕ
epoch_of is none = 0
epoch_of is (some id) = epoch_from 1 id is

-- `values == sorted(values)`.
abbrev pub is_ascending : List ℕ → Bool
is_ascending [] = true
is_ascending (m ∷ []) = true
is_ascending (m ∷ n ∷ ns) = leb m n && is_ascending (n ∷ ns)

-- Two tuples of texts differ.
abbrev pub lists_differ : List String → List String → Bool
lists_differ [] [] = false
lists_differ (s ∷ ss) (t ∷ ts) = not (same s t) || lists_differ ss ts
lists_differ _ _ = true

abbrev pub committed_ids : List Assignment → List String
committed_ids [] = []
committed_ids (s ∷ rest) =
    let ids = committed_ids rest in if is_committed s.state then s.id ∷ ids else ids

abbrev mixes_specs : List Assignment → Bool
mixes_specs [] = false
mixes_specs (s ∷ rest) = any (λ t. not (digest_eq t.spec_digest s.spec_digest)) rest

-- `assignment.closure.recorded_at if assignment.closure is not None else assignment.committed_at`.
abbrev pub closed_at : Option AssignmentClosure → Option DateTime → Option DateTime
closed_at (some c) committed_at = some c.recorded_at
closed_at none committed_at = committed_at

abbrev offered_early : Option DateTime → DateTime → Bool
offered_early none t = false
offered_early (some u) t = before t u

-- The loop over the timeline.
unfoldable pub goes_back_in_time : Option DateTime → List Assignment → Bool
goes_back_in_time previous [] = false
goes_back_in_time previous (s ∷ rest) =
    offered_early previous s.offered_at
    || goes_back_in_time (closed_at s.closure s.committed_at) rest

-- `_validate_normalized_history`.
unfoldable pub normalized_history_check : Hash → Run → Command (Unit {0})
unfolding goes_back_in_time
normalized_history_check sha256 r = do
  raise_if (has_repeat (map (λ s. s.id) r.assignments)) (invalid_run "assignments" "duplicate_id")
  pointer_check "current_assignment_id" r.current_assignment_id (map (λ s. s.id) r.assignments)
  raise_if (has_repeat (map (λ i. i.id) r.retry_intents))
      (invalid_run "retry_intents" "duplicate_id")
  pointer_check "pending_retry_intent_id" r.pending_retry_intent_id
      (map (λ i. i.id) r.retry_intents)
  raise_if (has_repeat (map (λ a. a.id) r.attempts)) (invalid_run "attempts" "duplicate_id")
  raise_if (has_repeat (map (λ a. a.start_commit_key) r.attempts))
      (invalid_run "attempts" "duplicate_start_commit_key")
  attempts_check sha256 r 1 none r.attempts
  raise_if (not (r.current_fence == latest_fence (last r.attempts)))
      (invalid_run "current_fence" "attempt_fence_mismatch")
  raise_if (not_from_latest (pending_retry_intent r) (last r.attempts))
      (invalid_run "pending_retry_intent_id" "source_attempt_not_current")
  raise_if (repeats_authority r.retry_intents) (invalid_run "retry_intents" "duplicate_authority")
  intents_check sha256 r r.retry_intents
  reservations_check r r.assignments
  raise_if (mixes_specs r.assignments) (invalid_run "assignments" "spec_digest_mismatch")
  raise_if (lists_differ (committed_ids r.assignments) (map (λ a. a.assignment_id) r.attempts))
      (invalid_run "assignments" "attempt_order_mismatch")
  raise_if
      (not (is_ascending (map (λ s. epoch_of r.retry_intents s.retry_intent_id) r.assignments)))
      (invalid_run "assignments" "retry_intent_order_mismatch")
  raise_if (goes_back_in_time none r.assignments)
      (invalid_run "assignments" "timeline_not_monotonic")
