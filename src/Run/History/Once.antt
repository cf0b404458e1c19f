-- ===== src/Run/History/Once.antt =====
-- A start key over the life of a Run.
use qarunner.Prelude.{
  Bool-cases, List, String, ap, arith, false, first_such, inl, inr, ok, same, some, sym, true, ℤ,
  ◌∙◌, ◌≡◌,
}
use qarunner.Values.{DateTime, Digest, WorkerRef}
use qarunner.Values.Canonical.{Hash}
use qarunner.Attempt.{Attempt}
use qarunner.Run.{Run}
use qarunner.Run.Committing.{CommitStartResult, commit_start, find_commit}
use qarunner.Run.History.Extends.{AllValid, Extends, grown, kept}
use qarunner.Run.History.Traces.{Reach, Reach-Lasting}
use qarunner.Run.History.Starts.{commit_start-found, commit_start-reply}

-- An Attempt that is found by its key is found by it later on.
find_commit-Extends :
    (key : String) (a : Attempt) {xs ys : List Attempt}
    → Extends xs ys
    → find_commit key xs ≡ some a
    → (b : Attempt) × (find_commit key ys ≡ some b) × (b.id ≡ a.id) × (b.fence ≡ a.fence)
unfolding find_commit first_such
find_commit-Extends key a (grown ys) h = cc
find_commit-Extends key a (kept {x = x} {y = y} {xs = xs} {ys = ys} k e) h =
    elim (Bool-cases (same x.start_commit_key key)) [
      | inl t ↦
          let found : x ≡ a = ground (arith, t, h) in
          let keyed : same y.start_commit_key key ≡ true = ap (λ s. same s key) k.same_key ∙ t in
          (
            y,
            ground (arith, keyed),
            k.same_id ∙ ap (λ z. z.id) found,
            k.same_fence ∙ ap (λ z. z.fence) found,
          )
      | inr f ↦
          let other : same y.start_commit_key key ≡ false = ap (λ s. same s key) k.same_key ∙ f in
          let (b, g, i, n) = find_commit-Extends key a e (ground (arith, f, h)) in
          (b, ground (arith, other, g), i, n)
    ]

-- A start key begins one Attempt only: after a start was accepted and then any other commands, of
-- which each may be accepted at its own version, a start with the same key that is accepted, whatever
-- else it asks for, is a replay. It names the Attempt and the fence of the first one and leaves the
-- Run as it is.
pub commit_start-once :
    (sha256 : Hash) (r v : Run) (d e : CommitStartResult) (key : String) (id other : String)
    (worker other_worker : WorkerRef) (spec other_spec : Digest) (attempt_id other_id : String)
    (at later : DateTime) (expected again : ℤ)
    → commit_start sha256 r id worker key spec attempt_id at expected ≡ ok d
    → AllValid sha256 d.run.attempts
    → Reach sha256 d.run v
    → commit_start sha256 v other other_worker key other_spec other_id later again ≡ ok e
    → (e.run ≡ v) × (e.attempt.id ≡ d.attempt.id) × (e.fence ≡ d.fence) × (e.replayed ≡ true)
commit_start-once sha256 r v d e key id other worker other_worker spec other_spec attempt_id
      other_id at later expected again h valid p h' =
    let (f, n) = commit_start-found sha256 r d id worker key spec attempt_id at expected h in
    let (b, g, i, m) =
      find_commit-Extends key d.attempt (Reach-Lasting sha256 d.run v valid p).extends f in
    let answer = sym (
      commit_start-reply sha256 v e other other_worker key other_spec other_id later again b g
        h') in
    (
      ap (λ x. x.run) answer,
      ap (λ x. x.attempt.id) answer ∙ i,
      ap (λ x. x.fence) answer ∙ m ∙ n,
      ap (λ x. x.replayed) answer,
    )
