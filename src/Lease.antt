-- ===== src/Lease.antt =====
-- domain/worker_lease.py: the lease of one assignment, issued to a Worker generation and renewed.
pub mod Renewal
mod Examples
use qarunner.Prelude.{
  Bool, Option, String, equals, false, is_blank, negsuc, none, not, ok, pos, raise_if, raised, some,
  suc, true, zero, ℕ, ℤ, ◌&&◌, ◌+◌, ◌==◌, ◌>>=◌, ◌>>◌,
}
use qarunner.Values.{
  Command, DateTime, WorkerRef, at_most, generation_conflict, invalid, lease_conflict, plus, ref_eq,
  require_utc,
}

pub data LeaseCommand : Type 0 where
  continue : LeaseCommand
  stop_cancelled : LeaseCommand
  stop_expired : LeaseCommand
  stop_policy_revoked : LeaseCommand
  drain_after_current : LeaseCommand
  quarantine : LeaseCommand

-- `command in _STOP_COMMANDS`.
abbrev pub is_stop : LeaseCommand → Bool
is_stop continue = false
is_stop drain_after_current = false
is_stop _ = true

abbrev is_continue : LeaseCommand → Bool
is_continue continue = true
is_continue _ = false

pub record AssignmentLease : Type 0 where
  pub assignment_id : String
  pub worker : WorkerRef
  pub fence : ℕ
  pub lease_version : ℕ
  pub issued_at : DateTime
  pub expires_at : DateTime
  pub command : LeaseCommand

abbrev entity : String
entity = "assignment_lease"

-- `__post_init__`.
pub post_init : AssignmentLease → Command AssignmentLease
unfolding require_utc
post_init l = do
  raise_if (is_blank l.assignment_id) (invalid entity "assignment_id" "invalid")
  raise_if (l.fence == 0) (invalid entity "fence" "invalid")
  raise_if (l.lease_version == 0) (invalid entity "lease_version" "invalid")
  require_utc entity "issued_at" l.issued_at
  require_utc entity "expires_at" l.expires_at
  raise_if (at_most l.expires_at l.issued_at) (invalid entity "expires_at" "not_after_issued_at")
  ok l

-- A `ttl` is a number of microseconds; one that is not above 0 is refused.
positive_ttl : ℤ → Command ℕ
positive_ttl (pos zero) = raised (invalid entity "ttl" "invalid")
positive_ttl (pos (suc n)) = ok (suc n)
positive_ttl (negsuc n) = raised (invalid entity "ttl" "invalid")

pub issue :
    (assignment_id : String) (worker : WorkerRef) (fence lease_version : ℕ) (issued_at : DateTime)
    (ttl : ℤ) (command : LeaseCommand)
    → Command AssignmentLease
unfolding positive_ttl
issue assignment_id worker fence lease_version issued_at ttl command = do
  span ← positive_ttl ttl
  post_init (record {
    assignment_id = assignment_id;
    worker = worker;
    fence = fence;
    lease_version = lease_version;
    issued_at = issued_at;
    expires_at = plus issued_at span;
    command = command;
  })

-- `self.worker if worker is None else worker`.
abbrev requesting : AssignmentLease → Option WorkerRef → WorkerRef
requesting l none = l.worker
requesting l (some worker) = worker

abbrev pub renewed : AssignmentLease → DateTime → ℕ → LeaseCommand → AssignmentLease
renewed l at span command = record l {
  lease_version = l.lease_version + 1;
  issued_at = at;
  expires_at = plus at span;
  command = command;
}

pub renew :
    AssignmentLease
    → (request_lease_version : ℤ) (observed_at : DateTime) (ttl : ℤ) → LeaseCommand
    → Option WorkerRef
    → Command AssignmentLease
unfolding require_utc positive_ttl
renew l request at ttl command worker = do
  raise_if (not (ref_eq (requesting l worker) l.worker))
      (generation_conflict l.worker (requesting l worker) "generation_mismatch")
  require_utc entity "observed_at" at
  span ← positive_ttl ttl
  raise_if (not (equals request l.lease_version))
      (lease_conflict l.assignment_id "stale_lease_version")
  raise_if (at_most l.expires_at at) (lease_conflict l.assignment_id "lease_expired")
  raise_if (is_stop l.command && is_continue command)
      (lease_conflict l.assignment_id "stop_command_active")
  post_init (renewed l at span command)
