-- ===== src/Lease/Examples.antt =====
-- A lease issued, renewed and stopped; the theorems at it.
use qarunner.Prelude.{arith, is_blank, ok, pos, refl, some, ◌<◌, ◌≡◌}
use qarunner.Values.{WorkerRef, ref_eq, require_utc, utc}
use qarunner.Lease.{AssignmentLease, continue, issue, post_init, renew, renewed, stop_cancelled}
use qarunner.Lease.Renewal.{Chain, IsValid, here, issue-Chain, then}

abbrev w1 : WorkerRef
w1 = record { worker_id = "w1"; generation = 2 }

abbrev first : AssignmentLease
first = record {
  assignment_id = "a1";
  worker = w1;
  fence = 3;
  lease_version = 1;
  issued_at = utc 100;
  expires_at = utc 130;
  command = continue;
}

abbrev second : AssignmentLease
second = renewed first (utc 120) 30 stop_cancelled

program : Unit {0}
unfolding issue renew post_init is_blank require_utc ref_eq
program = tt

issue-first : issue "a1" w1 3 1 (utc 100) (pos 30) continue ≡ ok first
unfolding program
issue-first = refl

renew-first : renew first (pos 1) (utc 120) (pos 30) stop_cancelled (some w1) ≡ ok second
unfolding program
renew-first = refl

second-IsValid : IsValid second
unfolding is_blank
second-IsValid = ground arith

path : Chain first 1 second
path = then here (pos 1) (utc 120) (pos 30) stop_cancelled (some w1) renew-first

issue-Chain_example :
    (second.assignment_id ≡ "a1")
    × (second.worker ≡ w1)
    × (second.fence ≡ 3)
    × (second.lease_version ≡ 2)
    × (second.issued_at.instant < second.expires_at.instant)
issue-Chain_example = issue-Chain "a1" w1 3 1 (utc 100) (pos 30) continue issue-first path
