-- ===== src/Attempt/History/Lasting.antt =====
-- What lasts of an Attempt whatever commands are accepted.
use qarunner.Prelude.{Option, String, arith, ok, true, ℕ, ◌≡◌}
use qarunner.Values.{Digest, WorkerRef}
use qarunner.Values.Canonical.{Hash}
use qarunner.Retry.{RetryProvenance}
use qarunner.Attempt.{Attempt, is_terminal}
use qarunner.Attempt.Commands.{create, new_attempt}
use qarunner.Attempt.Validity.{IsValid, post_init-IsValid}
use qarunner.Attempt.Events.{NumberedFrom}
use qarunner.Attempt.History.Traces.{Request, Stepped, apply, apply-Stepped}

pub data Reach (sha256 : Hash) (a : Attempt) : Attempt → Type 0 where
  here : Reach sha256 a a
  then :
      {v w : Attempt}
      → Reach sha256 a v
      → (q : Request) → apply sha256 v q ≡ ok w
      → Reach sha256 a w

-- What any number of accepted commands tells of the Attempt before and after them.
reach-Stepped :
    {sha256 : Hash} {a v : Attempt} → IsValid sha256 a → Reach sha256 a v → Stepped sha256 a v
reach-Stepped valid here = ground arith
reach-Stepped {sha256} {a} valid (then {v = u} {w = v} r q h) =
    let s = reach-Stepped valid r in let t = apply-Stepped sha256 u v q s.valid h in ground arith

-- Whatever commands the control plane accepts on an Attempt from its start commit on, the Attempt
-- stays valid, keeps its id, its fence and its worker, and its event log is numbered one, two,
-- three and so on, with no gap and no repetition.
pub create-Reach :
    (sha256 : Hash) (attempt_id run_id : String) (attempt_no fence : ℕ) (assignment_id : String)
    (worker : WorkerRef) (spec_digest : Digest) (start_commit_key : String)
    (provenance : Option RetryProvenance) (b v : Attempt)
    → create sha256 attempt_id run_id attempt_no fence assignment_id worker spec_digest
        start_commit_key provenance
      ≡ ok b
    → Reach sha256 b v
    → IsValid sha256 v
      × (v.id ≡ attempt_id)
      × (v.fence ≡ fence)
      × (v.worker ≡ worker)
      × NumberedFrom 1 v.events
unfolding create
create-Reach sha256 attempt_id run_id attempt_no fence assignment_id worker spec_digest
      start_commit_key provenance b v h r =
    let (e, valid) =
      post_init-IsValid sha256
        (new_attempt attempt_id run_id attempt_no fence assignment_id worker spec_digest
          start_commit_key provenance)
        b h in
    let s = reach-Stepped (rw (← e) at valid) r in ground (arith, e)

-- An Attempt that has ended stays as it ended: after any accepted commands, late events, replays
-- and decisions included, it has the same state, event log, evidence and unknown observation.
pub ended_stays :
    (sha256 : Hash) (a v : Attempt)
    → IsValid sha256 a
    → is_terminal a.state ≡ true
    → Reach sha256 a v
    → (v.state ≡ a.state)
      × (v.events ≡ a.events)
      × (v.evidence ≡ a.evidence)
      × (v.unknown_observation ≡ a.unknown_observation)
ended_stays sha256 a v valid ended r =
    let s = reach-Stepped valid r in ground (arith, s.end_stays ended)
