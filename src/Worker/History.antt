-- ===== src/Worker/History.antt =====
-- What holds of a Worker generation after any accepted commands.
use qarunner.Prelude.{String, arith, ok, pos, refl, suc, zero, ℕ, ℤ, ◌+◌, ◌∙◌, ◌≡◌, ◌≢◌, ◌≤◌, ◌⊎◌}
use qarunner.Values.{Command, DateTime, Digest, WorkerAuthority, WorkerRef}
use qarunner.Worker.{
  ReconcileWorkerFacts, WorkerGeneration, WorkerState, claimable_ref, observe_assignments,
  quarantined, reconcile, register, retired, state_from_facts, transition,
}
use qarunner.Worker.Validity.{IsValid, post_init-IsValid}
use qarunner.Worker.Commands.{
  claimable_ref_iff, moved-IsValid, observe_assignments_iff, observed-IsValid, reconcile_iff,
  state_from_facts-ne-retired, transition_iff,
}

pub data Request : Type 0 where
  change :
      (target : WorkerState) (authority : WorkerAuthority) (expected : ℤ) (at : DateTime) → Request
  recover :
      (authority : WorkerAuthority) (authenticated : WorkerRef) (facts : ReconcileWorkerFacts)
      (expected : ℤ) (at : DateTime)
      → Request
  observe : (authority : WorkerAuthority) (active expected : ℤ) (at : DateTime) → Request

unfoldable pub apply : WorkerGeneration → Request → Command WorkerGeneration
apply w (change target authority expected at) = transition w target authority expected at
apply w (recover authority authenticated facts expected at) =
    reconcile w authority authenticated facts expected at
apply w (observe authority active expected at) = observe_assignments w authority active expected at

abbrev pub expected_of : Request → ℤ
expected_of (change target authority expected at) = expected
expected_of (recover authority authenticated facts expected at) = expected
expected_of (observe authority active expected at) = expected

abbrev IsClosing : WorkerState → Type 0
IsClosing s = (s ≡ quarantined) ⊎ (s ≡ retired)

-- What one accepted command tells of the generation before and after it.
pub record Stepped (w v : WorkerGeneration) (expected : ℤ) : Type 0 where
  pub valid : IsValid v
  pub same_ref : v.ref ≡ w.ref
  pub same_start : v.registered_at ≡ w.registered_at
  pub seen_version : expected ≡ pos w.version
  pub next_version : v.version ≡ w.version + 1
  pub later : w.state_changed_at.instant ≤ v.state_changed_at.instant
  pub was_live : w.state ≢ retired
  pub closing_stays : IsClosing w.state → IsClosing v.state

apply-Stepped :
    (w v : WorkerGeneration) (r : Request)
    → IsValid w
    → apply w r ≡ ok v
    → Stepped w v (expected_of r)
unfolding apply
apply-Stepped w v (change target authority expected at) valid h = ground (
  arith,
  (transition_iff w v target authority expected at valid).0 h,
  moved-IsValid w target at valid,
)
apply-Stepped w v (recover authority authenticated facts expected at) valid h = ground (
  arith,
  (reconcile_iff w v authority authenticated facts expected at valid).0 h,
  observed-IsValid w (state_from_facts facts) at valid,
  state_from_facts-ne-retired facts,
)
apply-Stepped w v (observe authority active expected at) valid h = ground (
  arith,
  (observe_assignments_iff w v authority active expected at valid).0 h,
  observed-IsValid w v.state at valid,
)

pub data Reach (w : WorkerGeneration) : ℕ → WorkerGeneration → Type 0 where
  here : Reach w zero w
  then :
      {n : ℕ} {u v : WorkerGeneration}
      → Reach w n u
      → (r : Request) → apply u r ≡ ok v
      → Reach w (suc n) v

-- What any accepted commands keep.
record Kept (w : WorkerGeneration) (n : ℕ) (u : WorkerGeneration) : Type 0 where
  valid : IsValid u
  same_ref : u.ref ≡ w.ref
  counted : u.version ≡ w.version + n
  later : w.state_changed_at.instant ≤ u.state_changed_at.instant
  closing_stays : IsClosing w.state → IsClosing u.state

Reach-Kept : {w u : WorkerGeneration} {n : ℕ} → IsValid w → Reach w n u → Kept w n u
Reach-Kept v here = record {
  valid = v;
  same_ref = refl;
  counted = omega arith;
  later = omega arith;
  closing_stays = λ c. c;
}
Reach-Kept {w} v (then {u = m} {v = u} p r h) =
    let k = Reach-Kept v p in
    let s = apply-Stepped m u r k.valid h in
    record {
      valid = s.valid;
      same_ref = s.same_ref ∙ k.same_ref;
      counted = omega arith;
      later = omega arith;
      closing_stays = λ c. s.closing_stays (k.closing_stays c);
    }

-- A registered generation, after any n accepted commands, is valid, keeps its identity, has version
-- n, and its last change is not before its registration.
pub register-Reach :
    (ref : WorkerRef) (host_id pool_id cert_serial agent_version : String) (capabilities : Digest)
    (at : DateTime) {w u : WorkerGeneration} {n : ℕ}
    → register ref host_id pool_id cert_serial agent_version capabilities at ≡ ok w
    → Reach w n u
    → IsValid u × (u.ref ≡ ref) × (u.version ≡ n) × (at.instant ≤ u.state_changed_at.instant)
unfolding register
register-Reach ref host_id pool_id cert_serial agent_version capabilities at h r =
    let (e, v) = post_init-IsValid _ _ h in let k = Reach-Kept (rw (← e) at v) r in ground arith

-- A retired generation accepts no command.
pub retired_absorbs :
    (w v : WorkerGeneration) (r : Request) → IsValid w → w.state ≡ retired → apply w r ≢ ok v
retired_absorbs w v r valid e h = (apply-Stepped w v r valid h).was_live e

-- Once quarantined or retired, a generation is never ready or busy again, so no work is claimed
-- for it under any authority, whatever commands are accepted.
pub closing_never_claims :
    {w u : WorkerGeneration} {n : ℕ} (authority : WorkerAuthority) (ref : WorkerRef)
    → IsValid w
    → (w.state ≡ quarantined) ⊎ (w.state ≡ retired)
    → Reach w n u
    → claimable_ref u authority ≢ ok ref
closing_never_claims {u = u} authority ref valid c r h =
    let k = Reach-Kept valid r in
    let s = k.closing_stays c in ground (arith, (claimable_ref_iff u ref authority).0 h)

-- No version is accepted twice: once a command was accepted, a command that expects the version
-- from before it is refused from then on.
pub stale_version_refused :
    {w u : WorkerGeneration} {n : ℕ} (v : WorkerGeneration) (r : Request)
    → IsValid w
    → Reach w (suc n) u
    → expected_of r ≡ pos w.version
    → apply u r ≢ ok v
stale_version_refused {w} {u} v r valid p e h =
    let k = Reach-Kept valid p in let s = apply-Stepped u v r k.valid h in ground arith
