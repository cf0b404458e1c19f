-- ===== src/Assignment/Examples.antt =====
-- An assignment that is claimed and committed, and one that is released; the theorems at them.
use qarunner.Prelude.{arith, is_blank, none, ok, refl, some, ◌↔◌, ◌≡◌, ◌≤◌}
use qarunner.Values.{Digest, WorkerRef, ref_eq, require_utc, utc}
use qarunner.Assignment.{
  Assignment, AssignmentClosure, claim, claimed, close_prestart, commit, offer, offered, post_init,
  released,
}
use qarunner.Assignment.Validity.{CommittedWithin, IsValid}
use qarunner.Assignment.Lifecycle.{
  Reach, apply, as_claimed, as_closed, as_committed, claim_at, commit_at, commit_iff, here,
  offer-Reach, then,
}

abbrev w1 : WorkerRef
w1 = record { worker_id = "w1"; generation = 2 }

abbrev spec : Digest
spec = record { value = "sha256:11" }

abbrev fresh : Assignment
fresh = record {
  id = "a1";
  worker = w1;
  spec_digest = spec;
  state = offered;
  offered_at = utc 100;
  expires_at = utc 160;
  claimed_at = none;
  committed_at = none;
  retry_intent_id = none;
  closure = none;
}

abbrev taken : Assignment
taken = as_claimed fresh (utc 110)

abbrev started : Assignment
started = as_committed taken (utc 120)

abbrev release : AssignmentClosure
release = record {
  assignment_id = "a1";
  idempotency_key = "k";
  kind = released;
  effective_at = utc 130;
  recorded_at = utc 131;
  worker = some w1;
  cancellation_intent_digest = none;
}

program : Unit {0}
unfolding offer claim commit close_prestart post_init is_blank require_utc ref_eq
program = tt

taken-IsValid : IsValid taken
unfolding is_blank
taken-IsValid = ground arith

started-IsValid : IsValid started
unfolding is_blank
started-IsValid = ground arith

offer-fresh : offer "a1" w1 spec (utc 100) (utc 160) none ≡ ok fresh
unfolding program
offer-fresh = refl

apply-fresh : apply fresh (claim_at (utc 110)) ≡ ok taken
unfolding program apply
apply-fresh = refl

apply-taken : apply taken (commit_at (utc 120)) ≡ ok started
unfolding program apply
apply-taken = refl

close_prestart-taken : close_prestart taken release ≡ ok (as_closed taken release)
unfolding program
close_prestart-taken = refl

commit_iff_example : (commit taken (utc 120) ≡ ok started) ↔ (
    (taken.state ≡ claimed)
    × CommittedWithin taken.claimed_at taken.expires_at (some (utc 120))
    × (started ≡ as_committed taken (utc 120)))
commit_iff_example = commit_iff taken started (utc 120) taken-IsValid

path : Reach fresh 2 started
path = then (then here (claim_at (utc 110)) apply-fresh) (commit_at (utc 120)) apply-taken

offer-Reach_example :
    IsValid started × (started.worker ≡ w1) × (started.spec_digest ≡ spec) × (2 ≤ 2)
offer-Reach_example = offer-Reach "a1" w1 spec (utc 100) (utc 160) none offer-fresh path
