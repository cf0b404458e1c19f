-- ===== src/Worker/Commands.antt =====
-- When each command on a Worker generation succeeds, and what it then returns.
use qarunner.Prelude.{
  Option, arith, negsuc, none, ok, pos, some, suc, true, zero, ℤ, ◌↔◌, ◌≡◌, ◌≢◌, ◌≤◌, ◌⊎◌,
}
use qarunner.Values.{DateTime, WorkerAuthority, WorkerRef, is_utc}
use qarunner.Values.Laws.{ref_eq_iff}
use qarunner.Worker.{
  ReconcileWorkerFacts, WorkerGeneration, WorkerState, busy, claimable_ref, moved,
  observe_assignments, observed, offline, ready, reconcile, retired, state_from_facts, transition,
  worker_transitions,
}
use qarunner.Worker.Validity.{IsValid, post_init-IsValid, post_init_accepts}

-- The control plane knows the generation as current, at the version that the caller has seen.
pub record Addressed (w : WorkerGeneration) (authority : WorkerAuthority) (expected : ℤ)
    : Type 0 where
  pub current : w.ref ≡ authority.current_ref
  pub at_version : expected ≡ pos w.version

abbrev pub SeenBefore : Option DateTime → DateTime → Type 0
SeenBefore none at = Unit
SeenBefore (some seen) at = seen.instant ≤ at.instant

-- A time that may follow the generation's last change.
pub record Follows (w : WorkerGeneration) (at : DateTime) : Type 0 where
  pub in_utc : is_utc at ≡ true
  pub after : w.state_changed_at.instant ≤ at.instant

pub moved-IsValid :
    (w : WorkerGeneration) (target : WorkerState) (at : DateTime)
    → IsValid w
    → Follows w at
    → worker_transitions w.state target ≡ true
    → IsValid (moved w target at)
moved-IsValid w target at v f e = ground arith

pub observed-IsValid :
    (w : WorkerGeneration) (target : WorkerState) (at : DateTime)
    → IsValid w
    → Follows w at
    → w.state ≢ retired
    → target ≢ retired
    → IsValid (observed w target at)
observed-IsValid w target at v f s e = ground arith

-- A valid generation takes a transition exactly when the authority names it, the version is the
-- expected one, the time is in UTC and not before the last change, and the edge is declared; the
-- result is then the moved generation.
pub transition_iff :
    (w v : WorkerGeneration) (target : WorkerState) (authority : WorkerAuthority) (expected : ℤ)
    (at : DateTime)
    → IsValid w
    → (transition w target authority expected at ≡ ok v) ↔ (
        Addressed w authority expected
        × Follows w at
        × (worker_transitions w.state target ≡ true)
        × (v ≡ moved w target at))
unfolding transition
transition_iff w v target authority expected at valid = ground (
  arith,
  ref_eq_iff w.ref authority.current_ref,
  post_init-IsValid (moved w target at) v,
  post_init_accepts (moved w target at),
  moved-IsValid w target at valid,
)

pub state_from_facts-ne-retired : (facts : ReconcileWorkerFacts) → state_from_facts facts ≢ retired
state_from_facts-ne-retired facts = ground arith

-- A valid generation is reconciled exactly when the authority names it, the authenticated identity
-- is its own, the version is the expected one, the time is in UTC and not before the last change
-- nor the last sighting, and it is offline; its state then follows from the facts.
pub reconcile_iff :
    (w v : WorkerGeneration) (authority : WorkerAuthority) (authenticated : WorkerRef)
    (facts : ReconcileWorkerFacts) (expected : ℤ) (at : DateTime)
    → IsValid w
    → (reconcile w authority authenticated facts expected at ≡ ok v) ↔ (
        Addressed w authority expected
        × (authenticated ≡ w.ref)
        × Follows w at
        × SeenBefore w.last_seen_at at
        × (w.state ≡ offline)
        × (v ≡ observed w (state_from_facts facts) at))
unfolding reconcile
reconcile_iff w v authority authenticated facts expected at valid =
    let target = state_from_facts facts in
    ground (
      arith,
      ref_eq_iff w.ref authority.current_ref,
      ref_eq_iff authenticated w.ref,
      post_init-IsValid (observed w target at) v,
      post_init_accepts (observed w target at),
      observed-IsValid w target at valid,
      state_from_facts-ne-retired facts,
    )

-- The state that a count of assignments stands for; a negative count stands for none.
abbrev pub Counts : ℤ → WorkerState → Type 0
Counts (pos zero) state = state ≡ ready
Counts (pos (suc n)) state = state ≡ busy
Counts (negsuc n) state = ⊥

-- A valid generation takes an assignment count exactly when the authority names it, the count is
-- not negative, the version is the expected one, the time is in UTC and not before the last change
-- nor the last sighting, and it is ready or busy; it is then busy if the count is above 0, and
-- ready if it is 0.
pub observe_assignments_iff :
    (w v : WorkerGeneration) (authority : WorkerAuthority) (active expected : ℤ) (at : DateTime)
    → IsValid w
    → (observe_assignments w authority active expected at ≡ ok v) ↔ (
        Addressed w authority expected
        × Follows w at
        × SeenBefore w.last_seen_at at
        × ((w.state ≡ ready) ⊎ (w.state ≡ busy))
        × Counts active v.state
        × (v ≡ observed w v.state at))
unfolding observe_assignments
observe_assignments_iff w v authority active expected at valid = ground (
  arith,
  ref_eq_iff w.ref authority.current_ref,
  post_init-IsValid (observed w ready at) v,
  post_init-IsValid (observed w busy at) v,
  post_init_accepts (observed w ready at),
  post_init_accepts (observed w busy at),
  observed-IsValid w ready at valid,
  observed-IsValid w busy at valid,
)

-- Work is claimed for a generation exactly when it is the current one and ready or busy, and the
-- claim is made under its own identity.
pub claimable_ref_iff :
    (w : WorkerGeneration) (ref : WorkerRef) (authority : WorkerAuthority)
    → (claimable_ref w authority ≡ ok ref)
      ↔ ((w.ref ≡ authority.current_ref) × ((w.state ≡ ready) ⊎ (w.state ≡ busy)) × (ref ≡ w.ref))
unfolding claimable_ref
claimable_ref_iff w ref authority = ground (arith, ref_eq_iff w.ref authority.current_ref)
