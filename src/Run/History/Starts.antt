-- ===== src/Run/History/Starts.antt =====
-- A start that is delivered twice.
use qarunner.Prelude.{
  >>=-eq-ok, List, Option, String, ap, arith, false, last, length, none, ok, refl, some, sym, true,
  ℤ, ◌+◌, ◌>>=◌, ◌∙◌, ◌≡◌,
}
use qarunner.Values.{Command, DateTime, Digest, WorkerRef}
use qarunner.Values.Canonical.{Hash}
use qarunner.Assignment.{Assignment}
use qarunner.Attempt.{Attempt, start_committed}
use qarunner.Run.{Run}
use qarunner.Run.Lookups.{assignment_of}
use qarunner.Run.Committing.{
  CommitStartResult, commit_current, commit_keyed, commit_start, committed_run, find_commit,
  not_current, replay_commit, start_commit_digest,
}
use qarunner.Run.Refinement.{run_post_init-same}
use qarunner.Run.Refinement.Starting.{Begun, commit_current-Begun, commit_current-none}
use qarunner.Run.Current.{command_time, expect_version}
use qarunner.Run.Aggregate.{run_post_init}
use qarunner.Run.Invariant.{running_committed}
use qarunner.Run.History.Started.{
  created_fields, current_named, current_stays, find_commit-snoc, last-snoc, replay_commit-passes,
}

-- The answer to a repetition.
abbrev pub replay_of : CommitStartResult → CommitStartResult
replay_of d = record { run = d.run; attempt = d.attempt; fence = d.fence; replayed = true }

-- The stored Attempt is found, and answers a repetition.
abbrev Answers : Hash → String → Digest → CommitStartResult → Type 0
Answers sha256 key received d =
    (find_commit key d.run.attempts ≡ some d.attempt)
    × (replay_commit sha256 d.run key received d.attempt ≡ ok (replay_of d))

Answers-same :
    (sha256 : Hash) (key : String) (received : Digest) (d e : CommitStartResult)
    → d ≡ e
    → Answers sha256 key received d
    → Answers sha256 key received e
Answers-same sha256 key received d e p h = rw p at h

same_digest :
    (sha256 : Hash) (i j : String) (w x : WorkerRef) (s t d : Digest)
    → i ≡ j
    → w ≡ x
    → s ≡ t
    → start_commit_digest sha256 j x t ≡ ok d
    → start_commit_digest sha256 i w s ≡ ok d
same_digest sha256 i j w x s t d e f g h = rw e (rw f (rw g h))

accepted_self :
    (sha256 : Hash) (r v : Run) → run_post_init sha256 r ≡ ok v → run_post_init sha256 v ≡ ok v
accepted_self sha256 r v h = let e = run_post_init-same sha256 r v h in rw (← e) at h

-- The Run `v` was made from `r` by adding the Attempt `a`.
started-Answers :
    (sha256 : Hash) (r v : Run) (a : Attempt) (xs : List Assignment) (key : String)
    (received : Digest) (s : Assignment)
    → v ≡ committed_run r xs a
    → run_post_init sha256 v ≡ ok v
    → assignment_of r ≡ some s
    → s.id ≡ a.assignment_id
    → start_commit_digest sha256 a.assignment_id a.worker a.spec_digest ≡ ok received
    → a.start_commit_key ≡ key
    → a.fence ≡ r.current_fence + 1
    → a.state ≡ start_committed
    → find_commit key r.attempts ≡ none
    → Answers sha256 key received
        (record { run = v; attempt = a; fence = a.fence; replayed = false })
unfolding assignment_of
started-Answers sha256 r v a xs key received s e ok_v at_s i d k f st n =
    let run = ap (λ x. x.state) e in
    let attempts = ap (λ x. x.attempts) e in
    let fence = ap (λ x. x.current_fence) e in
    let pointer = ap (λ x. x.current_assignment_id) e in
    let named : r.current_assignment_id ≡ some s.id =
      current_named r.current_assignment_id r.assignments s at_s in
    let current : not_current (assignment_of v) a ≡ false =
      current_stays (assignment_of v) v.current_assignment_id s.id a
        (running_committed sha256 v v ok_v run)
        (λ t h. current_named v.current_assignment_id v.assignments t h) (pointer ∙ named)
        (sym i) in
    (
      ap (λ ys. find_commit key ys) attempts ∙ find_commit-snoc key r.attempts a n k,
      replay_commit-passes sha256 v key received a d (f ∙ sym fence) run current
          (ap last attempts ∙ last-snoc r.attempts a) st,
    )

Begun-Answers :
    (sha256 : Hash) (r : Run) (d : CommitStartResult) (id attempt_id key : String)
    (worker : WorkerRef) (spec received : Digest) (s : Assignment)
    → assignment_of r ≡ some s
    → start_commit_digest sha256 id worker spec ≡ ok received
    → find_commit key r.attempts ≡ none
    → Begun sha256 r d id attempt_id key worker spec s
    → Answers sha256 key received d
Begun-Answers sha256 r d id attempt_id key worker spec received s at_s digest n b =
    let a = b.attempt in
    let (i, w, p, k, f, st) =
      created_fields sha256 attempt_id r.id id key (length r.attempts + 1) (r.current_fence + 1)
        worker spec b.provenance a b.created in
    let begun = run_post_init-same sha256 (committed_run r b.reservations a) b.run b.accepted in
    let answers =
      started-Answers sha256 r b.run a b.reservations key received s begun
        (accepted_self sha256 (committed_run r b.reservations a) b.run b.accepted) at_s
        (b.of_id ∙ sym i)
        (same_digest sha256 a.assignment_id id a.worker worker a.spec_digest spec received i w p
          digest)
        k f st n in
    Answers-same sha256 key received _ d
      (ap (λ x. record { run = b.run; attempt = a; fence = x; replayed = false }) f ∙ b.result)
      answers

commit_current-Answers :
    (sha256 : Hash) (r : Run) (d : CommitStartResult) (id : String) (worker : WorkerRef)
    (key : String) (spec received : Digest) (attempt_id : String) (at : DateTime)
    (o : Option Assignment)
    → assignment_of r ≡ o
    → start_commit_digest sha256 id worker spec ≡ ok received
    → find_commit key r.attempts ≡ none
    → commit_current sha256 r id worker key spec attempt_id at o ≡ ok d
    → Answers sha256 key received d
commit_current-Answers sha256 r d id worker key spec received attempt_id at none c g n h =
    absurd (commit_current-none sha256 r d id worker key spec attempt_id at h)
commit_current-Answers sha256 r d id worker key spec received attempt_id at (some s) c g n h =
    Begun-Answers sha256 r d id attempt_id key worker spec received s c g n
      (commit_current-Begun sha256 r d id worker key spec attempt_id at s h)

abbrev pub reply : Run → Attempt → CommitStartResult
reply r a = record { run = r; attempt = a; fence = a.fence; replayed = true }

replay_commit-result :
    (sha256 : Hash) (r : Run) (d : CommitStartResult) (key : String) (received : Digest)
    (a : Attempt)
    → replay_commit sha256 r key received a ≡ ok d
    → reply r a ≡ d
unfolding replay_commit
replay_commit-result sha256 r d key received a h =
    let (g, e1, h1) =
      >>=-eq-ok (start_commit_digest sha256 a.assignment_id a.worker a.spec_digest) _ h in
    ground (arith, h1)

replay_commit-Answers :
    (sha256 : Hash) (r : Run) (d : CommitStartResult) (key : String) (received : Digest)
    (a : Attempt)
    → find_commit key r.attempts ≡ some a
    → replay_commit sha256 r key received a ≡ ok d
    → Answers sha256 key received d
unfolding replay_commit
replay_commit-Answers sha256 r d key received a c h =
    let e = replay_commit-result sha256 r d key received a h in
    Answers-same sha256 key received (reply r a) d e (c, h ∙ ap ok (sym e))

commit_keyed-Answers :
    (sha256 : Hash) (r : Run) (d : CommitStartResult) (id : String) (worker : WorkerRef)
    (key : String) (spec : Digest) (attempt_id : String) (at : DateTime) (expected : ℤ)
    (received : Digest) (o : Option Attempt)
    → find_commit key r.attempts ≡ o
    → start_commit_digest sha256 id worker spec ≡ ok received
    → commit_keyed sha256 r id worker key spec attempt_id at expected received o ≡ ok d
    → Answers sha256 key received d
unfolding commit_keyed
commit_keyed-Answers sha256 r d id worker key spec attempt_id at expected received (some a) c g h =
    replay_commit-Answers sha256 r d key received a c h
commit_keyed-Answers sha256 r d id worker key spec attempt_id at expected received none c g h =
    let (u, e1, h1) = >>=-eq-ok (expect_version r expected) _ h in
    let (u', e2, h2) = >>=-eq-ok (command_time "observed_at" at) _ h1 in
    commit_current-Answers sha256 r d id worker key spec received attempt_id at (assignment_of r)
      refl g c h2

found_replay :
    (sha256 : Hash) (v : Run) (id : String) (worker : WorkerRef) (key : String) (spec : Digest)
    (attempt_id : String) (at : DateTime) (expected : ℤ) (received : Digest) (a : Attempt)
    (d : CommitStartResult) (o : Option Attempt)
    → o ≡ some a
    → replay_commit sha256 v key received a ≡ ok d
    → commit_keyed sha256 v id worker key spec attempt_id at expected received o ≡ ok d
unfolding commit_keyed
found_replay sha256 v id worker key spec attempt_id at expected received a d (some b) e h =
    let same_one : b ≡ a = ground (arith, e) in rw same_one h
found_replay sha256 v id worker key spec attempt_id at expected received a d none e h =
    ground (arith, e)

then_keyed :
    (m : Command Digest) (received : Digest) (f : Digest → Command CommitStartResult)
    (d : CommitStartResult)
    → m ≡ ok received
    → f received ≡ ok d
    → (m >>= f) ≡ ok d
then_keyed m received f d e h = rw e h

-- What an accepted start leaves in its Run: the Attempt under its key.
pub commit_start-found :
    (sha256 : Hash) (r : Run) (d : CommitStartResult) (id : String) (worker : WorkerRef)
    (key : String) (spec : Digest) (attempt_id : String) (at : DateTime) (expected : ℤ)
    → commit_start sha256 r id worker key spec attempt_id at expected ≡ ok d
    → (find_commit key d.run.attempts ≡ some d.attempt) × (d.attempt.fence ≡ d.fence)
unfolding commit_start
commit_start-found sha256 r d id worker key spec attempt_id at expected h =
    let (received, e, h1) = >>=-eq-ok (start_commit_digest sha256 id worker spec) _ h in
    let (f, a) =
      commit_keyed-Answers sha256 r d id worker key spec attempt_id at expected received
        (find_commit key r.attempts) refl e h1 in
    (
      f,
      ap (λ x. x.fence) (replay_commit-result sha256 d.run (replay_of d) key received d.attempt a),
    )

-- A key that is found is answered from the Attempt that holds it.
pub commit_start-reply :
    (sha256 : Hash) (v : Run) (e : CommitStartResult) (id : String) (worker : WorkerRef)
    (key : String) (spec : Digest) (attempt_id : String) (at : DateTime) (expected : ℤ)
    (a : Attempt)
    → find_commit key v.attempts ≡ some a
    → commit_start sha256 v id worker key spec attempt_id at expected ≡ ok e
    → reply v a ≡ e
unfolding commit_start
commit_start-reply sha256 v e id worker key spec attempt_id at expected a f h =
    let (received, c, h1) = >>=-eq-ok (start_commit_digest sha256 id worker spec) _ h in
    keyed_reply sha256 v e id worker key spec attempt_id at expected received a
      (find_commit key v.attempts) f h1
  where
    keyed_reply :
        (sha256 : Hash) (v : Run) (e : CommitStartResult) (id : String) (worker : WorkerRef)
        (key : String) (spec : Digest) (attempt_id : String) (at : DateTime) (expected : ℤ)
        (received : Digest) (a : Attempt) (o : Option Attempt)
        → o ≡ some a
        → commit_keyed sha256 v id worker key spec attempt_id at expected received o ≡ ok e
        → reply v a ≡ e
    keyed_reply sha256 v e id worker key spec attempt_id at expected received a (some b) f h =
        unfold commit_keyed in
        let found : b ≡ a = ground (arith, f) in
        replay_commit-result sha256 v e key received a (rw found at h)
    keyed_reply sha256 v e id worker key spec attempt_id at expected received a none f h =
        ground (arith, f)

-- A start that was accepted is answered with the same Attempt and fence when it is delivered again
-- to the very Run that it gave, with any new Attempt id, time and expected version, and the Run stays
-- as it is. It says nothing of a Run that took another command since: there the repetition may be
-- refused, as superseded or by its fence.
pub commit_start-again :
    (sha256 : Hash) (r : Run) (d : CommitStartResult) (id : String) (worker : WorkerRef)
    (key : String) (spec : Digest) (attempt_id other_id : String) (at later : DateTime)
    (expected again : ℤ)
    → commit_start sha256 r id worker key spec attempt_id at expected ≡ ok d
    → commit_start sha256 d.run id worker key spec other_id later again ≡ ok (replay_of d)
unfolding commit_start
commit_start-again sha256 r d id worker key spec attempt_id other_id at later expected again h =
    let (received, e, h1) = >>=-eq-ok (start_commit_digest sha256 id worker spec) _ h in
    let (f, a) =
      commit_keyed-Answers sha256 r d id worker key spec attempt_id at expected received
        (find_commit key r.attempts) refl e h1 in
    then_keyed (start_commit_digest sha256 id worker spec) received
      (λ g.
        commit_keyed sha256 d.run id worker key spec other_id later again g
          (find_commit key d.run.attempts))
      (replay_of d) e
      (found_replay sha256 d.run id worker key spec other_id later again received d.attempt
        (replay_of d) (find_commit key d.run.attempts) f a)
