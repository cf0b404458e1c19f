-- ===== src/Assignment/Lifecycle.antt =====
-- The commands on an assignment: when they succeed, and what an assignment goes through.
use qarunner.Prelude.{
  Option, String, arith, none, ok, refl, some, suc, zero, ℕ, ◌+◌, ◌<◌, ◌↔◌, ◌∙◌, ◌≡◌, ◌≢◌, ◌≤◌, ◌⊎◌,
}
use qarunner.Values.{Command, DateTime, Digest, WorkerRef}
use qarunner.Assignment.{
  Assignment, AssignmentClosure, AssignmentState, claim, claimed, close_prestart, commit, committed,
  offer, offered, terminal_state,
}
use qarunner.Assignment.Validity.{
  ClaimedWithin, CommittedWithin, Fits, IsValid, post_init-IsValid, post_init_accepts,
}

abbrev pub as_claimed : Assignment → DateTime → Assignment
as_claimed a at = record a { state = claimed; claimed_at = some at }

abbrev pub as_committed : Assignment → DateTime → Assignment
as_committed a at = record a { state = committed; committed_at = some at }

abbrev pub as_closed : Assignment → AssignmentClosure → Assignment
as_closed a c = record a { state = terminal_state c.kind; closure = some c }

-- A valid assignment is claimed exactly when it is offered and the time is in UTC, at or after the
-- offer and before the expiry; it is then claimed at that time and otherwise as it was.
pub claim_iff :
    (a v : Assignment) (at : DateTime)
    → IsValid a
    → (claim a at ≡ ok v) ↔ (
        (a.state ≡ offered)
        × ClaimedWithin a.offered_at a.expires_at (some at)
        × (v ≡ as_claimed a at))
unfolding claim
claim_iff a v at valid =
    ground (arith, post_init-IsValid (as_claimed a at) v, post_init_accepts (as_claimed a at))

-- A valid assignment is committed exactly when it is claimed and the time is in UTC, at or after
-- its claim and before the expiry; it is then committed at that time and otherwise as it was.
pub commit_iff :
    (a v : Assignment) (at : DateTime)
    → IsValid a
    → (commit a at ≡ ok v) ↔ (
        (a.state ≡ claimed)
        × CommittedWithin a.claimed_at a.expires_at (some at)
        × (v ≡ as_committed a at))
unfolding commit
commit_iff a v at valid =
    ground (arith, post_init-IsValid (as_committed a at) v, post_init_accepts (as_committed a at))

-- A valid assignment is closed before its start exactly when it is offered or claimed and the
-- closure is its own and fits: an expiry takes effect at the expiry itself, a release is by the
-- assignment's worker, and a release or a cancellation takes effect in the offer's window and not
-- before the claim. It is then in the closure's state, and otherwise as it was.
pub close_prestart_iff :
    (a v : Assignment) (c : AssignmentClosure)
    → IsValid a
    → (close_prestart a c ≡ ok v)
      ↔ (((a.state ≡ offered) ⊎ (a.state ≡ claimed)) × Fits a c × (v ≡ as_closed a c))
unfolding close_prestart
close_prestart_iff a v c valid =
    ground (arith, post_init-IsValid (as_closed a c) v, post_init_accepts (as_closed a c))

pub data Request : Type 0 where
  claim_at : DateTime → Request
  commit_at : DateTime → Request
  close_by : AssignmentClosure → Request

unfoldable pub apply : Assignment → Request → Command Assignment
apply a (claim_at t) = claim a t
apply a (commit_at t) = commit a t
apply a (close_by c) = close_prestart a c

-- How many commands a state has behind it, at least.
abbrev pub stage : AssignmentState → ℕ
stage offered = 0
stage claimed = 1
stage _ = 2

record Stepped (a v : Assignment) : Type 0 where
  valid : IsValid v
  same_id : v.id ≡ a.id
  same_ref : v.worker ≡ a.worker
  same_spec : v.spec_digest ≡ a.spec_digest
  onward : stage a.state < stage v.state

apply-Stepped : (a v : Assignment) (r : Request) → IsValid a → apply a r ≡ ok v → Stepped a v
unfolding apply claim commit close_prestart
apply-Stepped a v (claim_at t) valid h = ground (arith, post_init-IsValid (as_claimed a t) v)
apply-Stepped a v (commit_at t) valid h = ground (arith, post_init-IsValid (as_committed a t) v)
apply-Stepped a v (close_by c) valid h = ground (arith, post_init-IsValid (as_closed a c) v)

pub data Reach (a : Assignment) : ℕ → Assignment → Type 0 where
  here : Reach a zero a
  then :
      {n : ℕ} {u v : Assignment}
      → Reach a n u
      → (r : Request) → apply u r ≡ ok v
      → Reach a (suc n) v

record Kept (a : Assignment) (n : ℕ) (u : Assignment) : Type 0 where
  valid : IsValid u
  same_id : u.id ≡ a.id
  same_ref : u.worker ≡ a.worker
  same_spec : u.spec_digest ≡ a.spec_digest
  counted : n + stage a.state ≤ stage u.state

Reach-Kept : {a u : Assignment} {n : ℕ} → IsValid a → Reach a n u → Kept a n u
Reach-Kept v here = record {
  valid = v;
  same_id = refl;
  same_ref = refl;
  same_spec = refl;
  counted = omega arith;
}
Reach-Kept v (then {u = m} {v = u} p r h) =
    let k = Reach-Kept v p in
    let s = apply-Stepped m u r k.valid h in
    record {
      valid = s.valid;
      same_id = s.same_id ∙ k.same_id;
      same_ref = s.same_ref ∙ k.same_ref;
      same_spec = s.same_spec ∙ k.same_spec;
      counted = omega arith;
    }

stage_le : (s : AssignmentState) → stage s ≤ 2
stage_le s = ground arith

-- An offered assignment, after any n accepted commands, is valid and still binds the same worker
-- and execution spec, and n is at most 2.
pub offer-Reach :
    (assignment_id : String) (worker : WorkerRef) (spec_digest : Digest)
    (offered_at expires_at : DateTime) (intent : Option String) {a u : Assignment} {n : ℕ}
    → offer assignment_id worker spec_digest offered_at expires_at intent ≡ ok a
    → Reach a n u
    → IsValid u × (u.worker ≡ worker) × (u.spec_digest ≡ spec_digest) × (n ≤ 2)
unfolding offer
offer-Reach assignment_id worker spec_digest offered_at expires_at intent {u = u} h r =
    let (e, v) =
      post_init-IsValid
        (record {
          id = assignment_id;
          worker = worker;
          spec_digest = spec_digest;
          state = offered;
          offered_at = offered_at;
          expires_at = expires_at;
          claimed_at = none;
          committed_at = none;
          retry_intent_id = intent;
          closure = none;
        })
        _ h in
    let k = Reach-Kept (rw (← e) at v) r in ground (arith, stage_le u.state)

-- A committed assignment, and one that a closure has ended, accepts no command: neither can be
-- committed or closed afterwards.
pub settled_absorbs :
    (a v : Assignment) (r : Request)
    → IsValid a
    → a.state ≢ offered
    → a.state ≢ claimed
    → apply a r ≢ ok v
settled_absorbs a v r valid n m h =
    let s = apply-Stepped a v r valid h in ground (arith, stage_le v.state)
