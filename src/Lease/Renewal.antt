-- ===== src/Lease/Renewal.antt =====
-- When a lease is renewed, and what holds along a chain of renewals.
use qarunner.Prelude.{
  Option, String, arith, false, is_blank, negsuc, none, ok, pos, refl, some, suc, true, zero, ℕ, ℤ,
  ◌+◌, ◌<◌, ◌↔◌, ◌∙◌, ◌≡◌, ◌≢◌,
}
use qarunner.Values.{DateTime, WorkerRef, is_utc}
use qarunner.Values.Laws.{ref_eq_iff}
use qarunner.Lease.{
  AssignmentLease, LeaseCommand, continue, drain_after_current, is_stop, issue, post_init, renew,
  renewed,
}

pub record IsValid (l : AssignmentLease) : Type 0 where
  pub named : is_blank l.assignment_id ≡ false
  pub fenced : 0 < l.fence
  pub versioned : 0 < l.lease_version
  pub issued_utc : is_utc l.issued_at ≡ true
  pub expires_utc : is_utc l.expires_at ≡ true
  pub open_window : l.issued_at.instant < l.expires_at.instant

post_init-IsValid : (l v : AssignmentLease) → post_init l ≡ ok v → (v ≡ l) × IsValid l
unfolding post_init
post_init-IsValid l v h = ground arith

post_init_accepts : (l : AssignmentLease) → IsValid l → post_init l ≡ ok l
unfolding post_init
post_init_accepts l h = ground arith

abbrev pub RequestedBy : Option WorkerRef → WorkerRef → Type 0
RequestedBy none holder = Unit
RequestedBy (some worker) holder = worker ≡ holder

renewed-IsValid :
    (l : AssignmentLease) (at : DateTime) (n : ℕ) (command : LeaseCommand)
    → IsValid l
    → is_utc at ≡ true
    → IsValid (renewed l at (suc n) command)
renewed-IsValid l at n command v u = ground arith

-- A valid lease is renewed, for a time of n + 1 microseconds, exactly when the holder asks, at the
-- current lease version, at a UTC time before the expiry, and does not turn a stop into `continue`;
-- the result then carries the next version, the new window and the new command.
pub renew_iff :
    (l v : AssignmentLease) (request : ℤ) (at : DateTime) (n : ℕ) (command : LeaseCommand)
    (worker : Option WorkerRef)
    → IsValid l
    → (renew l request at (pos (suc n)) command worker ≡ ok v) ↔ (
        RequestedBy worker l.worker
        × (is_utc at ≡ true)
        × (request ≡ pos l.lease_version)
        × (at.instant < l.expires_at.instant)
        × ((is_stop l.command ≡ true) → command ≢ continue)
        × (v ≡ renewed l at (suc n) command))
unfolding renew
renew_iff l v request at n command none valid = ground (
  arith,
  ref_eq_iff l.worker l.worker,
  post_init-IsValid (renewed l at (suc n) command) v,
  post_init_accepts (renewed l at (suc n) command),
  renewed-IsValid l at n command valid,
)
renew_iff l v request at n command (some worker) valid = ground (
  arith,
  ref_eq_iff worker l.worker,
  post_init-IsValid (renewed l at (suc n) command) v,
  post_init_accepts (renewed l at (suc n) command),
  renewed-IsValid l at n command valid,
)

-- What one accepted renewal tells.
record Renewed (l v : AssignmentLease) (request : ℤ) : Type 0 where
  valid : IsValid v
  same_assignment : v.assignment_id ≡ l.assignment_id
  same_worker : v.worker ≡ l.worker
  same_fence : v.fence ≡ l.fence
  seen_version : request ≡ pos l.lease_version
  next_version : v.lease_version ≡ l.lease_version + 1
  no_gap : v.issued_at.instant < l.expires_at.instant

renew_needs_ttl :
    (l v : AssignmentLease) (request : ℤ) (at : DateTime) (ttl : ℤ) (command : LeaseCommand)
    (worker : Option WorkerRef)
    → renew l request at ttl command worker ≡ ok v
    → (n : ℕ) × (ttl ≡ pos (suc n))
unfolding renew
renew_needs_ttl l v request at (pos zero) command worker h = absurd (ground arith)
renew_needs_ttl l v request at (pos (suc n)) command worker h = (n, refl)
renew_needs_ttl l v request at (negsuc n) command worker h = absurd (ground arith)

renew-Renewed :
    (l v : AssignmentLease) (request : ℤ) (at : DateTime) (ttl : ℤ) (command : LeaseCommand)
    (worker : Option WorkerRef)
    → IsValid l
    → renew l request at ttl command worker ≡ ok v
    → Renewed l v request
renew-Renewed l v request at ttl command worker valid h =
    let (n, e) = renew_needs_ttl l v request at ttl command worker h in
    ground (
      arith,
      (renew_iff l v request at n command worker valid).0 (rw e at h),
      renewed-IsValid l at n command valid,
    )

pub data Chain (l : AssignmentLease) : ℕ → AssignmentLease → Type 0 where
  here : Chain l zero l
  then :
      {n : ℕ} {u v : AssignmentLease}
      → Chain l n u
      → (request : ℤ) (at : DateTime) (ttl : ℤ) (command : LeaseCommand) (worker : Option WorkerRef)
      → renew u request at ttl command worker ≡ ok v
      → Chain l (suc n) v

record Kept (l : AssignmentLease) (n : ℕ) (u : AssignmentLease) : Type 0 where
  valid : IsValid u
  same_assignment : u.assignment_id ≡ l.assignment_id
  same_worker : u.worker ≡ l.worker
  same_fence : u.fence ≡ l.fence
  counted : u.lease_version ≡ l.lease_version + n

Chain-Kept : {l u : AssignmentLease} {n : ℕ} → IsValid l → Chain l n u → Kept l n u
Chain-Kept v here = record {
  valid = v;
  same_assignment = refl;
  same_worker = refl;
  same_fence = refl;
  counted = omega arith;
}
Chain-Kept v (then {u = m} {v = u} c request at ttl command worker h) =
    let k = Chain-Kept v c in
    let s = renew-Renewed m u request at ttl command worker k.valid h in
    record {
      valid = s.valid;
      same_assignment = s.same_assignment ∙ k.same_assignment;
      same_worker = s.same_worker ∙ k.same_worker;
      same_fence = s.same_fence ∙ k.same_fence;
      counted = omega arith;
    }

-- An issued lease, after any n renewals, is still held by the same worker under the same fence for
-- the same assignment, has counted each renewal in its version, and has an open window.
pub issue-Chain :
    (assignment_id : String) (worker : WorkerRef) (fence version : ℕ) (at : DateTime) (ttl : ℤ)
    (command : LeaseCommand) {l u : AssignmentLease} {n : ℕ}
    → issue assignment_id worker fence version at ttl command ≡ ok l
    → Chain l n u
    → (u.assignment_id ≡ assignment_id)
      × (u.worker ≡ worker)
      × (u.fence ≡ fence)
      × (u.lease_version ≡ version + n)
      × (u.issued_at.instant < u.expires_at.instant)
unfolding issue
issue-Chain assignment_id worker fence version at (pos zero) command h c = absurd (ground arith)
issue-Chain assignment_id worker fence version at (negsuc m) command h c = absurd (ground arith)
issue-Chain assignment_id worker fence version at (pos (suc m)) command h c =
    let (e, v) = post_init-IsValid _ _ h in let k = Chain-Kept (rw (← e) at v) c in ground arith

-- No lease version is renewed twice: after a renewal, a request that still carries the version from
-- before it is refused from then on.
pub renewed_version_refused :
    {l u : AssignmentLease} {n : ℕ} (v : AssignmentLease) (request : ℤ) (at : DateTime) (ttl : ℤ)
    (command : LeaseCommand) (worker : Option WorkerRef)
    → IsValid l
    → Chain l (suc n) u
    → request ≡ pos l.lease_version
    → renew u request at ttl command worker ≢ ok v
renewed_version_refused {l} {u} v request at ttl command worker valid c e h =
    let k = Chain-Kept valid c in
    let s = renew-Renewed u v request at ttl command worker k.valid h in ground arith

-- A stop is not permanent: a lease under a stop command takes `drain_after_current` from its holder
-- before its expiry, and the lease so renewed takes `continue` before the new expiry.
pub stop_lifted :
    (l : AssignmentLease) (at later : DateTime) (n m : ℕ)
    → IsValid l
    → is_stop l.command ≡ true
    → is_utc at ≡ true
    → is_utc later ≡ true
    → at.instant < l.expires_at.instant
    → later.instant < at.instant + suc n
    → let drained = renewed l at (suc n) drain_after_current in
      (renew l (pos l.lease_version) at (pos (suc n)) drain_after_current none ≡ ok drained)
      × (renew drained (pos drained.lease_version) later (pos (suc m)) continue none
          ≡ ok (renewed drained later (suc m) continue))
stop_lifted l at later n m valid stop u w before_end before_next =
    let drained = renewed l at (suc n) drain_after_current in
    (
      (renew_iff l drained (pos l.lease_version) at n drain_after_current none valid).1
          (ground arith),
      (renew_iff drained (renewed drained later (suc m) continue) (pos drained.lease_version) later
            m continue none (renewed-IsValid l at n drain_after_current valid u)).1
          (ground arith),
    )
