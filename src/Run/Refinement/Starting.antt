-- ===== src/Run/Refinement/Starting.antt =====
-- The command that starts an Attempt.
use qarunner.Prelude.{
  >>=-eq-ok, List, Option, String, any, ap, arith, false, inl, last, length, none, not, ok, pos,
  raise_if, same, same_iff, some, sym, ℤ, ◌+◌, ◌||◌, ◌≡◌, ◌≢◌,
}
use qarunner.Values.{DateTime, Digest, WorkerRef, at_most, digest_eq, ref_eq}
use qarunner.Values.Canonical.{Hash}
use qarunner.Assignment.{Assignment, commit}
use qarunner.Attempt.{Attempt}
use qarunner.Attempt.Commands.{create}
use qarunner.Retry.{RetryProvenance}
use qarunner.Run.{Run, assigned, is_assigned}
use qarunner.Run.Lookups.{assignment_of, pending_retry_intent}
use qarunner.Run.Current.{command_time, expect_version, replace_current_assignment}
use qarunner.Run.Aggregate.{run_post_init}
use qarunner.Run.Change.{start}
use qarunner.Run.Committing.{
  CommitStartResult, claimed_after, commit_current, commit_keyed, commit_provenance, commit_start,
  committed_run, find_commit, is_claimed, replay_commit, start_commit_digest,
}
use qarunner.Run.Refinement.{Accepted, Accepted-same, expect_version-same, made}

-- What a new start rests on, and what it gives.
pub record Begun (sha256 : Hash) (r : Run) (d : CommitStartResult) (id attempt_id key : String)
    (worker : WorkerRef) (spec : Digest) (s : Assignment) : Type 0 where
  pub of_id : s.id ≡ id
  pub was_assigned : r.state ≡ assigned
  pub provenance : Option RetryProvenance
  pub attempt : Attempt
  pub created :
      create sha256 attempt_id r.id
        (length r.attempts + 1)
        (r.current_fence + 1)
        id
        worker
        spec
        key
        provenance
      ≡ ok attempt
  pub reservations : List Assignment
  pub run : Run
  pub accepted : run_post_init sha256 (committed_run r reservations attempt) ≡ ok run
  pub result :
      record { run = run; attempt = attempt; fence = r.current_fence + 1; replayed = false } ≡ d

pub commit_current-Begun :
    (sha256 : Hash) (r : Run) (d : CommitStartResult) (id : String) (worker : WorkerRef)
    (key : String) (spec : Digest) (attempt_id : String) (at : DateTime) (s : Assignment)
    → commit_current sha256 r id worker key spec attempt_id at (some s) ≡ ok d
    → Begun sha256 r d id attempt_id key worker spec s
unfolding commit_current
commit_current-Begun sha256 r d id worker key spec attempt_id at s h =
    let (u, e1, h1) =
      >>=-eq-ok
        (raise_if
          (not (is_assigned r.state)
            || not (same s.id id)
            || not (ref_eq s.worker worker)
            || not (digest_eq s.spec_digest spec)
            || not (is_claimed s.state))
          _)
        _ h in
    let (u', e2, h2) = >>=-eq-ok (raise_if (at_most s.expires_at at) _) _ h1 in
    let (u'', e3, h3) = >>=-eq-ok (raise_if (claimed_after s.claimed_at at) _) _ h2 in
    let (u3, e4, h4) = >>=-eq-ok (raise_if (any (λ a. same a.id attempt_id) r.attempts) _) _ h3 in
    let (p, e5, h5) =
      >>=-eq-ok (commit_provenance sha256 r s spec (last r.attempts) (pending_retry_intent r)) _
        h4 in
    let (a, e6, h6) =
      >>=-eq-ok
        (create sha256 attempt_id r.id (length r.attempts + 1) (r.current_fence + 1) id worker spec
          key p)
        _ h5 in
    let (t, e7, h7) = >>=-eq-ok (commit s at) _ h6 in
    let (xs, e8, h8) = >>=-eq-ok (replace_current_assignment r t) _ h7 in
    let (w, e9, h9) = >>=-eq-ok (run_post_init sha256 (committed_run r xs a)) _ h8 in
    record {
      of_id = ground (arith, e1, same_iff s.id id);
      was_assigned = ground (arith, e1);
      provenance = p;
      attempt = a;
      created = e6;
      reservations = xs;
      run = w;
      accepted = e9;
      result = ground (arith, h9);
    }

pub commit_current-none :
    (sha256 : Hash) (r : Run) (d : CommitStartResult) (id : String) (worker : WorkerRef)
    (key : String) (spec : Digest) (attempt_id : String) (at : DateTime)
    → commit_current sha256 r id worker key spec attempt_id at none ≢ ok d
unfolding commit_current
commit_current-none sha256 r d id worker key spec attempt_id at h = ground (arith, h)

commit_current-Accepted :
    (sha256 : Hash) (r : Run) (v : CommitStartResult) (id : String) (worker : WorkerRef)
    (key : String) (spec : Digest) (attempt_id : String) (at : DateTime) (o : Option Assignment)
    (expected : ℤ)
    → expected ≡ pos r.version
    → commit_current sha256 r id worker key spec attempt_id at o ≡ ok v
    → Accepted sha256 r expected v.run
commit_current-Accepted sha256 r v id worker key spec attempt_id at none expected n h =
    absurd (commit_current-none sha256 r v id worker key spec attempt_id at h)
commit_current-Accepted sha256 r v id worker key spec attempt_id at (some s) expected n h =
    let b = commit_current-Begun sha256 r v id worker key spec attempt_id at s h in
    Accepted-same sha256 r v.run b.run expected (ap (λ x. x.run) (sym b.result)) (
      made sha256 r (committed_run r b.reservations b.attempt) b.run expected n
        (start b.reservations attempt_id id worker spec key b.provenance b.attempt b.was_assigned
          b.created)
        b.accepted)

replay_commit-same :
    (sha256 : Hash) (r : Run) (v : CommitStartResult) (key : String) (received : Digest)
    (a : Attempt)
    → replay_commit sha256 r key received a ≡ ok v
    → v.run ≡ r
unfolding replay_commit
replay_commit-same sha256 r v key received a h =
    let (d, e1, h1) =
      >>=-eq-ok (start_commit_digest sha256 a.assignment_id a.worker a.spec_digest) _ h in
    ground (arith, h1)

commit_keyed-Accepted :
    (sha256 : Hash) (r : Run) (v : CommitStartResult) (id : String) (worker : WorkerRef)
    (key : String) (spec : Digest) (attempt_id : String) (at : DateTime) (expected : ℤ)
    (received : Digest) (o : Option Attempt)
    → commit_keyed sha256 r id worker key spec attempt_id at expected received o ≡ ok v
    → Accepted sha256 r expected v.run
unfolding commit_keyed
commit_keyed-Accepted sha256 r v id worker key spec attempt_id at expected received (some a) h =
    inl (replay_commit-same sha256 r v key received a h)
commit_keyed-Accepted sha256 r v id worker key spec attempt_id at expected received none h =
    let (u, e1, h1) = >>=-eq-ok (expect_version r expected) _ h in
    let (u', e2, h2) = >>=-eq-ok (command_time "observed_at" at) _ h1 in
    commit_current-Accepted sha256 r v id worker key spec attempt_id at (assignment_of r) expected
      (expect_version-same r expected u e1) h2

pub commit_start-Accepted :
    (sha256 : Hash) (r : Run) (v : CommitStartResult) (id : String) (worker : WorkerRef)
    (key : String) (spec : Digest) (attempt_id : String) (at : DateTime) (expected : ℤ)
    → commit_start sha256 r id worker key spec attempt_id at expected ≡ ok v
    → Accepted sha256 r expected v.run
unfolding commit_start
commit_start-Accepted sha256 r v id worker key spec attempt_id at expected h =
    let (received, e1, h1) = >>=-eq-ok (start_commit_digest sha256 id worker spec) _ h in
    commit_keyed-Accepted sha256 r v id worker key spec attempt_id at expected received
      (find_commit key r.attempts) h1
