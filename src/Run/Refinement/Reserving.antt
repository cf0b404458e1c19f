-- ===== src/Run/Refinement/Reserving.antt =====
-- The commands that queue, reserve and claim.
use qarunner.Prelude.{
  >>=-eq-ok, Option, String, any, arith, is_some, none, not, ok, pos, raise_if, same, some, true, ℤ,
  ◌&&◌, ◌||◌, ◌≡◌,
}
use qarunner.Values.{DateTime, Digest, WorkerAuthority, WorkerRef, at_most, before, ref_eq}
use qarunner.Values.Canonical.{Hash}
use qarunner.Run.{
  Run, RunState, assigned, is_assigned, is_queued, is_retry_queued, planned, queued, retry_queued,
  run_cancelled, running,
}
use qarunner.Run.Lookups.{assignment_of, pending_retry_intent}
use qarunner.Run.Current.{command_time, expect_version, replace_current_assignment}
use qarunner.Run.Change.{accept, enter, queued_run, reserve}
use qarunner.Run.Refinement.{Accepted, expect_version-same, made}
use qarunner.Worker.{WorkerGeneration, claimable_ref}
use qarunner.Assignment.{Assignment, claim, offer}
use qarunner.Attempt.{running}
use qarunner.Run.Scheduling.{
  allowed_run_transitions, claim_assignment, claim_current, first_spec_differs, is_offered,
  offer_assignment, offered_intent, offered_run, reserved_run, transition_run,
}

allowed-planned :
    (s target : RunState)
    → allowed_run_transitions s target ≡ true
    → (s ≡ planned) × (target ≡ queued)
allowed-planned planned target h = ground (arith, h)
allowed-planned queued target h = ground (arith, h)
allowed-planned assigned target h = ground (arith, h)
allowed-planned running target h = ground (arith, h)
allowed-planned retry_queued target h = ground (arith, h)
allowed-planned run_cancelled target h = ground (arith, h)

pub transition_run-Accepted :
    (sha256 : Hash) (r v : Run) (target : RunState) (expected : ℤ)
    → transition_run sha256 r target expected ≡ ok v
    → Accepted sha256 r expected v
unfolding transition_run
transition_run-Accepted sha256 r v target expected h =
    let (u, e1, h1) = >>=-eq-ok (expect_version r expected) _ h in
    let (u', e2, h2) = >>=-eq-ok (raise_if (not (allowed_run_transitions r.state target)) _) _ h1 in
    let allowed : allowed_run_transitions r.state target ≡ true = ground (arith, e2) in
    let (s, t) = allowed-planned r.state target allowed in
    made sha256 r (queued_run r) v expected (expect_version-same r expected u e1) (enter s)
      (rw t at h2)

pub offer_assignment-Accepted :
    (sha256 : Hash) (r v : Run) (id : String) (worker : WorkerGeneration)
    (authority : WorkerAuthority) (spec : Digest) (from until : DateTime) (expected : ℤ)
    → offer_assignment sha256 r id worker authority spec from until expected ≡ ok v
    → Accepted sha256 r expected v
unfolding offer_assignment
offer_assignment-Accepted sha256 r v id worker authority spec from until expected h =
    let (u, e1, h1) = >>=-eq-ok (expect_version r expected) _ h in
    let (u', e2, h2) =
      >>=-eq-ok
        (raise_if (not (is_queued r.state || is_retry_queued r.state) || is_some (assignment_of r))
          _)
        _ h1 in
    let (u'', e3, h3) = >>=-eq-ok (raise_if (any (λ s. same s.id id) r.assignments) _) _ h2 in
    let (u3, e4, h4) =
      >>=-eq-ok (raise_if (is_queued r.state && first_spec_differs r.assignments spec) _) _ h3 in
    let (intent_id, e5, h5) = >>=-eq-ok (offered_intent r spec (pending_retry_intent r)) _ h4 in
    let (ref, e6, h6) = >>=-eq-ok (claimable_ref worker authority) _ h5 in
    let (s, e7, h7) = >>=-eq-ok (offer id ref spec from until intent_id) _ h6 in
    made sha256 r (offered_run r s) v expected (expect_version-same r expected u e1)
      (reserve s (ground (arith, e2))) h7

claim_current-Accepted :
    (sha256 : Hash) (r v : Run) (id : String) (worker : WorkerRef) (at : DateTime)
    (o : Option Assignment) (expected : ℤ)
    → expected ≡ pos r.version
    → claim_current sha256 r id worker at o ≡ ok v
    → Accepted sha256 r expected v
unfolding claim_current
claim_current-Accepted sha256 r v id worker at none expected n h = ground (arith, h)
claim_current-Accepted sha256 r v id worker at (some s) expected n h =
    let (u, e1, h1) =
      >>=-eq-ok
        (raise_if
          (not (is_assigned r.state)
            || not (same s.id id)
            || not (ref_eq s.worker worker)
            || not (is_offered s.state))
          _)
        _ h in
    let (u', e2, h2) = >>=-eq-ok (raise_if (at_most s.expires_at at) _) _ h1 in
    let (u'', e3, h3) = >>=-eq-ok (raise_if (before at s.offered_at) _) _ h2 in
    let (t, e4, h4) = >>=-eq-ok (claim s at) _ h3 in
    let (xs, e5, h5) = >>=-eq-ok (replace_current_assignment r t) _ h4 in
    made sha256 r (reserved_run r xs) v expected n (accept xs (ground (arith, e1))) h5

pub claim_assignment-Accepted :
    (sha256 : Hash) (r v : Run) (id : String) (worker : WorkerRef) (at : DateTime) (expected : ℤ)
    → claim_assignment sha256 r id worker at expected ≡ ok v
    → Accepted sha256 r expected v
unfolding claim_assignment
claim_assignment-Accepted sha256 r v id worker at expected h =
    let (u, e1, h1) = >>=-eq-ok (expect_version r expected) _ h in
    let (u', e2, h2) = >>=-eq-ok (command_time "observed_at" at) _ h1 in
    claim_current-Accepted sha256 r v id worker at (assignment_of r) expected
      (expect_version-same r expected u e1) h2
