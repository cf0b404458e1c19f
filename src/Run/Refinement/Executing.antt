-- ===== src/Run/Refinement/Executing.antt =====
-- The commands on the current Attempt.
use qarunner.Prelude.{
  >>=-eq-ok, Bool, Option, String, arith, false, inl, last, none, not, ok, raise_if, refl, same,
  some, true, ℤ, ◌==◌, ◌||◌, ◌≡◌, ◌⊎◌,
}
use qarunner.Values.{
  AttemptAuthority, AttemptAuthority_post_init, DateTime, ensure_expected_version,
}
use qarunner.Values.Canonical.{Hash}
use qarunner.Unknown.{UnknownObservation}
use qarunner.Attempt.{Attempt, AttemptState, is_terminal, running}
use qarunner.Attempt.Commands.{
  allowed_transitions, ensure_authority, enter_unknown, mark_stored, mark_unknown, transition,
}
use qarunner.Attempt.History.Traces.{Request, apply, change, lose}
use qarunner.Run.{Run, running}
use qarunner.Run.Current.{current_attempt, expect_version, latest_is}
use qarunner.Run.Change.{advance}
use qarunner.Run.Refinement.{Accepted, expect_version-same, made}
use qarunner.Run.Execution.{
  attempt_run, mark_cancel_stop_unproven, mark_current_attempt_unknown, store_attempt,
  store_changed, transition_current_attempt, unchanged, unproven_observation,
}

pub latest_is-same :
    (r : Run) (id : String) (o : Option Attempt) (a : Attempt)
    → latest_is r id o ≡ ok a
    → o ≡ some a
unfolding latest_is
latest_is-same r id none a h = ground (arith, h)
latest_is-same r id (some b) a h =
    let (u, e1, h1) = >>=-eq-ok (raise_if (not (same b.id id) || not (same b.run_id r.id)) _) _ h in
    let (u', e2, h2) = >>=-eq-ok (raise_if (not (b.fence == r.current_fence)) _) _ h1 in
    ground (arith, h2)

pub current_attempt-last :
    (r : Run) (id : String) (a : Attempt) → current_attempt r id ≡ ok a → last r.attempts ≡ some a
unfolding current_attempt
current_attempt-last r id a h = latest_is-same r id (last r.attempts) a h

allowed_transitions-live :
    (s t : AttemptState) → allowed_transitions s t ≡ true → is_terminal s ≡ false
allowed_transitions-live AttemptState.start_committed t h = refl
allowed_transitions-live AttemptState.provisioning t h = refl
allowed_transitions-live AttemptState.running t h = refl
allowed_transitions-live AttemptState.uploading t h = refl
allowed_transitions-live _ t h = ground (arith, h)

pub store_attempt-Accepted :
    (sha256 : Hash) (r v : Run) (old a : Attempt) (q : Request) (expected : ℤ)
    → last r.attempts ≡ some old
    → apply sha256 old q ≡ ok a
    → (is_terminal old.state ≡ false) ⊎ (r.state ≡ running)
    → store_attempt sha256 r a expected ≡ ok v
    → Accepted sha256 r expected v
unfolding store_attempt
store_attempt-Accepted sha256 r v old a q expected l e live h =
    let (u, e1, h1) = >>=-eq-ok (expect_version r expected) _ h in
    made sha256 r (attempt_run r a) v expected (expect_version-same r expected u e1)
      (advance old a q l e live) h1

pub store_changed-Accepted :
    (sha256 : Hash) (r v : Run) (old a : Attempt) (q : Request) (expected : ℤ) (b : Bool)
    → last r.attempts ≡ some old
    → apply sha256 old q ≡ ok a
    → (b ≡ false → (is_terminal old.state ≡ false) ⊎ (r.state ≡ running))
    → store_changed sha256 r a expected b ≡ ok v
    → Accepted sha256 r expected v
unfolding store_changed
store_changed-Accepted sha256 r v old a q expected true l e live h = inl (ground (arith, h))
store_changed-Accepted sha256 r v old a q expected false l e live h =
    store_attempt-Accepted sha256 r v old a q expected l e (live refl) h

pub transition_current_attempt-Accepted :
    (sha256 : Hash) (r v : Run) (id : String) (target : AttemptState) (expected at : ℤ)
    → transition_current_attempt sha256 r id target expected at ≡ ok v
    → Accepted sha256 r expected v
unfolding transition_current_attempt transition apply
transition_current_attempt-Accepted sha256 r v id target expected at h =
    let (old, e1, h1) = >>=-eq-ok (current_attempt r id) _ h in
    let (a, e2, h2) = >>=-eq-ok (transition sha256 old target at) _ h1 in
    let (u, e3, h3) = >>=-eq-ok (ensure_expected_version "attempt" old.id old.version at) _ e2 in
    let (u', e4, h4) = >>=-eq-ok (raise_if (not (allowed_transitions old.state target)) _) _ h3 in
    let may : allowed_transitions old.state target ≡ true = ground (arith, e4) in
    store_attempt-Accepted sha256 r v old a (change target at) expected
      (current_attempt-last r id old e1) e2 (inl (allowed_transitions-live old.state target may)) h2

-- A new observation is only stored while the Attempt has not ended.
enter_unknown-live :
    (sha256 : Hash) (a v : Attempt) (o : UnknownObservation) (expected : ℤ)
    → enter_unknown sha256 a o expected ≡ ok v
    → is_terminal a.state ≡ false
unfolding enter_unknown
enter_unknown-live sha256 a v o expected h =
    let (u, e1, h1) = >>=-eq-ok (ensure_expected_version "attempt" a.id a.version expected) _ h in
    let (u', e2, h2) = >>=-eq-ok (raise_if (is_terminal a.state) _) _ h1 in ground (arith, e2)

mark_stored-live :
    (sha256 : Hash) (a v : Attempt) (s : Option UnknownObservation) (o : UnknownObservation)
    (expected : ℤ)
    → mark_stored sha256 a s o expected ≡ ok v
    → unchanged a v ≡ false
    → is_terminal a.state ≡ false
unfolding mark_stored
mark_stored-live sha256 a v none o expected h n = enter_unknown-live sha256 a v o expected h
mark_stored-live sha256 a v (some s) o expected h n =
    ground (arith, h, n, enter_unknown-live sha256 a v o expected)

mark_unknown-live :
    (sha256 : Hash) (a v : Attempt) (o : UnknownObservation) (authority : AttemptAuthority)
    (expected : ℤ)
    → mark_unknown sha256 a o authority expected ≡ ok v
    → unchanged a v ≡ false
    → is_terminal a.state ≡ false
unfolding mark_unknown
mark_unknown-live sha256 a v o authority expected h n =
    let (u, e1, h1) = >>=-eq-ok (ensure_authority a authority a.worker a.fence) _ h in
    mark_stored-live sha256 a v a.unknown_observation o expected h1 n

pub mark_current_attempt_unknown-Accepted :
    (sha256 : Hash) (r v : Run) (id : String) (o : UnknownObservation) (expected at : ℤ)
    → mark_current_attempt_unknown sha256 r id o expected at ≡ ok v
    → Accepted sha256 r expected v
unfolding mark_current_attempt_unknown apply
mark_current_attempt_unknown-Accepted sha256 r v id o expected at h =
    let (old, e1, h1) = >>=-eq-ok (current_attempt r id) _ h in
    let (authority, e2, h2) = >>=-eq-ok (AttemptAuthority_post_init _) _ h1 in
    let (a, e3, h3) = >>=-eq-ok (mark_unknown sha256 old o authority at) _ h2 in
    store_changed-Accepted sha256 r v old a (lose o authority at) expected (unchanged old a)
      (current_attempt-last r id old e1) e3
      (λ n. inl (mark_unknown-live sha256 old a o authority at e3 n)) h3

pub mark_cancel_stop_unproven-Accepted :
    (sha256 : Hash) (r v : Run) (id observation_id : String) (t : DateTime) (expected at : ℤ)
    → mark_cancel_stop_unproven sha256 r id observation_id t expected at ≡ ok v
    → Accepted sha256 r expected v
unfolding mark_cancel_stop_unproven
mark_cancel_stop_unproven-Accepted sha256 r v id observation_id t expected at h =
    let (o, e1, h1) =
      >>=-eq-ok (unproven_observation sha256 r.cancel_intent observation_id t) _ h in
    mark_current_attempt_unknown-Accepted sha256 r v id o expected at h1
