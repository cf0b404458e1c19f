-- ===== src/Run/Aggregate.antt =====
-- What the constructor of a Run checks, as a whole.
use qarunner.Prelude.{
  Bool, List, Option, String, [], false, if◌then◌else◌, is_blank, map, none, not, ok, raise_if,
  raised, same, some, texts_differ, true, ℕ, ◌++◌, ◌+◌, ◌==◌, ◌>>◌, ◌∷◌,
}
use qarunner.Values.{Command}
use qarunner.Values.Canonical.{Hash}
use qarunner.Assignment.{Assignment}
use qarunner.Attempt.{Attempt}
use qarunner.Retry.{RetryIntent, RetryProvenance}
use qarunner.Cancellation.{CancellationIntent}
use qarunner.Run.{Run, invalid_run}
use qarunner.Run.Assignments.{lists_differ, normalized_history_check}
use qarunner.Run.Cancelling.{cancellation_history_check, causality_check}
use qarunner.Run.Pointers.{pointers_check}

-- The places of the reservations of an intent, and of the one with an id: the last and the first.
unfoldable pub last_place : ℕ → Option String → List Assignment → Option ℕ
last_place n id [] = none
last_place n id (s ∷ rest) =
    qarunner.Prelude.or_else (last_place (n + 1) id rest)
      (if texts_differ s.retry_intent_id id then none else some n)

unfoldable pub first_place : ℕ → String → List Assignment → Option ℕ
first_place n id [] = none
first_place n id (s ∷ rest) =
    let later = first_place (n + 1) id rest in if same s.id id then some n else later

abbrev places_differ : Option ℕ → Option ℕ → Bool
places_differ (some m) (some n) = not (m == n)
places_differ _ _ = true

unfoldable pub tail_check : Run → Attempt → Option String → Command (Unit {0})
unfolding last_place first_place
tail_check r a intent_id =
    raise_if
      (places_differ (last_place 0 intent_id r.assignments)
        (first_place 0 a.assignment_id r.assignments))
      (invalid_run "assignments" "committed_assignment_not_epoch_tail")

-- The Attempts after the first, each with the intent before it. The intents do not run out, by the
-- checks that came before.
unfoldable pub later_tails : Run → List Attempt → List RetryIntent → Command (Unit {0})
unfolding tail_check
later_tails r [] is = ok tt
later_tails r (a ∷ rest) [] = raised (invalid_run "retry_intents" "index")
later_tails r (a ∷ rest) (i ∷ is) = do tail_check r a (some i.id); later_tails r rest is

-- `_validate_assignment_epoch_tails`.
unfoldable pub tails_check : Run → List Attempt → Command (Unit {0})
unfolding tail_check later_tails
tails_check r [] = ok tt
tails_check r (a ∷ rest) = do tail_check r a none; later_tails r rest r.retry_intents

abbrev cons_consumed : Option RetryProvenance → List String → List String
cons_consumed none ids = ids
cons_consumed (some p) ids = p.retry_intent_id ∷ ids

abbrev consumed_ids : List Attempt → List String
consumed_ids [] = []
consumed_ids (a ∷ rest) = cons_consumed a.retry_provenance (consumed_ids rest)

abbrev pending_ids : Option String → List String
pending_ids none = []
pending_ids (some id) = id ∷ []

-- `_validate_retry_intent_consumption`.
unfoldable pub consumption_check : Run → Command (Unit {0})
consumption_check r =
    raise_if
      (lists_differ (map (λ i. i.id) r.retry_intents)
        (consumed_ids r.attempts ++ pending_ids r.pending_retry_intent_id))
      (invalid_run "retry_intents" "order_mismatch")

abbrev pub blank_pointer : Option String → Bool
blank_pointer none = false
blank_pointer (some id) = is_blank id

abbrev pub of_other_run : String → Option CancellationIntent → Bool
of_other_run id none = false
of_other_run id (some c) = not (same c.run_id id)

-- `__post_init__`.
unfoldable pub run_post_init : Hash → Run → Command Run
run_post_init sha256 r = do
  raise_if (is_blank r.id) (invalid_run "id" "invalid")
  raise_if (blank_pointer r.current_assignment_id) (invalid_run "current_assignment_id" "invalid")
  raise_if (blank_pointer r.pending_retry_intent_id)
      (invalid_run "pending_retry_intent_id" "invalid")
  raise_if (of_other_run r.id r.cancel_intent) (invalid_run "cancel_intent" "run_mismatch")
  normalized_history_check sha256 r
  causality_check r r.cancel_intent
  cancellation_history_check sha256 r
  pointers_check sha256 r
  tails_check r r.attempts
  consumption_check r
  ok r
