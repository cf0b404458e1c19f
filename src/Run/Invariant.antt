-- ===== src/Run/Invariant.antt =====
-- What the constructor's checks mean for the Attempts of a Run.
use qarunner.Prelude.{
  >>=-eq-ok, List, Option, String, [], arith, false, has_repeat, is_blank, is_none, is_some, last,
  length, map, none, not, ok, raise_if, refl, same, same_iff, some, true, ℕ, ◌&&◌, ◌+◌, ◌==◌, ◌||◌,
  ◌∙◌, ◌∷◌, ◌≡◌,
}
use qarunner.Run.Lookups.{assignment_of, find_assignment, pending_retry_intent}
use qarunner.Run.Cancelling.{cancellation_history_check, causality_check}
use qarunner.Run.Pointers.{
  has_cancelled_outcome, not_committed, pointers_check, snapshots_check, state_check,
}
use qarunner.Run.{Run, RunState, is_cancelled, is_running, running}
use qarunner.Values.Canonical.{Hash}
use qarunner.Attempt.{Attempt, running}
use qarunner.Run.Attempts.{attempts_check, latest_fence, pointer_check, reservation_check}
use qarunner.Run.Assignments.{normalized_history_check}
use qarunner.Run.Aggregate.{blank_pointer, of_other_run, run_post_init}

-- The Attempts are of the Run, and their numbers and fences count up from `n`.
abbrev pub Numbered : String → ℕ → List Attempt → Type 0
Numbered id n [] = Unit {0}
Numbered id n (a ∷ rest) =
    (a.run_id ≡ id) × (a.attempt_no ≡ n) × (a.fence ≡ n) × Numbered id (n + 1) rest

attempts_check-Numbered :
    (sha256 : Hash) (r : Run) (n : ℕ) (previous : Option Attempt) (xs : List Attempt) (u : Unit {0})
    → attempts_check sha256 r n previous xs ≡ ok u
    → Numbered r.id n xs
unfolding attempts_check
attempts_check-Numbered sha256 r n previous [] u h = tt
attempts_check-Numbered sha256 r n previous (a ∷ rest) u h =
    let (u1, e1, h1) = >>=-eq-ok (raise_if (not (same a.run_id r.id)) _) _ h in
    let (u2, e2, h2) = >>=-eq-ok (raise_if (not (a.attempt_no == n)) _) _ h1 in
    let (u3, e3, h3) = >>=-eq-ok (raise_if (not (a.fence == n)) _) _ h2 in
    let (u4, e4, h4) =
      >>=-eq-ok
        (reservation_check sha256 r a previous (find_assignment a.assignment_id r.assignments)) _
        h3 in
    let rest_numbered = attempts_check-Numbered sha256 r (n + 1) (some a) rest u h4 in
    (
      ground (arith, e1, same_iff a.run_id r.id),
      ground (arith, e2),
      ground (arith, e3),
      rest_numbered,
    )

latest_fence-length :
    (id : String) (n : ℕ) (a : Attempt) (xs : List Attempt)
    → Numbered id n (a ∷ xs)
    → latest_fence (last (a ∷ xs)) ≡ n + length xs
latest_fence-length id n a [] h = ground (arith, h)
latest_fence-length id n a (b ∷ xs) h =
    let rest = latest_fence-length id (n + 1) b xs h.3 in ground (arith, rest)

fence_count :
    (id : String) (xs : List Attempt) → Numbered id 1 xs → latest_fence (last xs) ≡ length xs
fence_count id [] h = refl
fence_count id (a ∷ xs) h = let e = latest_fence-length id 1 a xs h in ground (arith, e)

pub record RunIsValid (r : Run) : Type 0 where
  pub numbered : Numbered r.id 1 r.attempts
  pub fence_counts : r.current_fence ≡ length r.attempts

history_check-RunIsValid :
    (sha256 : Hash) (r : Run) (u : Unit {0})
    → normalized_history_check sha256 r ≡ ok u
    → RunIsValid r
unfolding normalized_history_check
history_check-RunIsValid sha256 r u h =
    let (u1, e1, h1) = >>=-eq-ok (raise_if (has_repeat (map (λ s. s.id) r.assignments)) _) _ h in
    let (u2, e2, h2) =
      >>=-eq-ok
        (pointer_check "current_assignment_id" r.current_assignment_id
          (map (λ s. s.id) r.assignments))
        _ h1 in
    let (u3, e3, h3) = >>=-eq-ok (raise_if (has_repeat (map (λ i. i.id) r.retry_intents)) _) _ h2 in
    let (u4, e4, h4) =
      >>=-eq-ok
        (pointer_check "pending_retry_intent_id" r.pending_retry_intent_id
          (map (λ i. i.id) r.retry_intents))
        _ h3 in
    let (u5, e5, h5) = >>=-eq-ok (raise_if (has_repeat (map (λ a. a.id) r.attempts)) _) _ h4 in
    let (u6, e6, h6) =
      >>=-eq-ok (raise_if (has_repeat (map (λ a. a.start_commit_key) r.attempts)) _) _ h5 in
    let (u7, e7, h7) = >>=-eq-ok (attempts_check sha256 r 1 none r.attempts) _ h6 in
    let (u8, e8, h8) =
      >>=-eq-ok (raise_if (not (r.current_fence == latest_fence (last r.attempts))) _) _ h7 in
    let numbered = attempts_check-Numbered sha256 r 1 none r.attempts u7 e7 in
    let fence : r.current_fence ≡ latest_fence (last r.attempts) = ground (arith, e8) in
    record { numbered = numbered; fence_counts = fence ∙ fence_count r.id r.attempts numbered }

pub run_post_init-RunIsValid :
    (sha256 : Hash) (r v : Run) → run_post_init sha256 r ≡ ok v → RunIsValid r
unfolding run_post_init
run_post_init-RunIsValid sha256 r v h =
    let (u1, e1, h1) = >>=-eq-ok (raise_if (is_blank r.id) _) _ h in
    let (u2, e2, h2) = >>=-eq-ok (raise_if (blank_pointer r.current_assignment_id) _) _ h1 in
    let (u3, e3, h3) = >>=-eq-ok (raise_if (blank_pointer r.pending_retry_intent_id) _) _ h2 in
    let (u4, e4, h4) = >>=-eq-ok (raise_if (of_other_run r.id r.cancel_intent) _) _ h3 in
    let (u5, e5, h5) = >>=-eq-ok (normalized_history_check sha256 r) _ h4 in
    history_check-RunIsValid sha256 r u5 e5

intent_placed :
    (sha256 : Hash) (r : Run) (u : Unit {0})
    → pointers_check sha256 r ≡ ok u
    → is_some r.cancel_intent ≡ true
    → (is_running r.state || is_cancelled r.state) ≡ true
unfolding pointers_check
intent_placed sha256 r u h some_intent =
    let (u1, e1, h1) = >>=-eq-ok (state_check sha256 r r.state) _ h in
    let (u2, e2, h2) = >>=-eq-ok (snapshots_check sha256 r.attempts) _ h1 in
    let (u3, e3, h3) =
      >>=-eq-ok
        (raise_if
          (has_cancelled_outcome (last r.attempts)
            && not (
                is_cancelled r.state
                && is_none (pending_retry_intent r)
                && is_some r.cancellation_stop))
          _)
        _ h2 in
    let (u4, e4, h4) =
      >>=-eq-ok (raise_if (not (is_cancelled r.state) && is_some r.cancellation_stop) _) _ h3 in
    ground (arith, h4, some_intent)

pointers_hold :
    (sha256 : Hash) (r v : Run)
    → run_post_init sha256 r ≡ ok v
    → (u : Unit {0}) × (pointers_check sha256 r ≡ ok u)
unfolding run_post_init
pointers_hold sha256 r v h =
    let (u1, e1, h1) = >>=-eq-ok (raise_if (is_blank r.id) _) _ h in
    let (u2, e2, h2) = >>=-eq-ok (raise_if (blank_pointer r.current_assignment_id) _) _ h1 in
    let (u3, e3, h3) = >>=-eq-ok (raise_if (blank_pointer r.pending_retry_intent_id) _) _ h2 in
    let (u4, e4, h4) = >>=-eq-ok (raise_if (of_other_run r.id r.cancel_intent) _) _ h3 in
    let (u5, e5, h5) = >>=-eq-ok (normalized_history_check sha256 r) _ h4 in
    let (u6, e6, h6) = >>=-eq-ok (causality_check r r.cancel_intent) _ h5 in
    let (u7, e7, h7) = >>=-eq-ok (cancellation_history_check sha256 r) _ h6 in
    let (u8, e8, h8) = >>=-eq-ok (pointers_check sha256 r) _ h7 in (u8, e8)

-- A Run with a cancellation intent runs or is cancelled.
pub intent_stands :
    (sha256 : Hash) (r v : Run)
    → run_post_init sha256 r ≡ ok v
    → is_some r.cancel_intent ≡ true
    → (is_running r.state || is_cancelled r.state) ≡ true
intent_stands sha256 r v h some_intent =
    let (u, e) = pointers_hold sha256 r v h in intent_placed sha256 r u e some_intent

running_state :
    (sha256 : Hash) (r : Run) (s : RunState) (u : Unit {0})
    → state_check sha256 r s ≡ ok u
    → s ≡ running
    → not_committed (assignment_of r) ≡ false
unfolding state_check
running_state sha256 r running u h e = ground (arith, h)
running_state sha256 r _ u h e = ground (arith, e)

-- The current reservation of a running Run is committed.
pub running_committed :
    (sha256 : Hash) (r v : Run)
    → run_post_init sha256 r ≡ ok v
    → r.state ≡ running
    → not_committed (assignment_of r) ≡ false
unfolding pointers_check
running_committed sha256 r v h e =
    let (u, p) = pointers_hold sha256 r v h in
    let (u1, e1, h1) = >>=-eq-ok (state_check sha256 r r.state) _ p in
    running_state sha256 r r.state u1 e1 e
