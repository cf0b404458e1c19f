-- ===== src/Worker/Examples.antt =====
-- A worker that registers, works and is retired; the theorems at that life.
use qarunner.Prelude.{arith, inl, is_blank, none, ok, pos, refl, ◌≡◌, ◌≢◌, ◌≤◌}
use qarunner.Values.{WorkerAuthority, WorkerRef, ref_eq, require_utc, utc}
use qarunner.Worker.{
  WorkerGeneration, busy, claimable_ref, draining, moved, observe_assignments, observed, offline,
  post_init, quarantined, ready, reconcile, register, registering, retired, transition,
}
use qarunner.Worker.Validity.{IsValid}
use qarunner.Worker.History.{
  Reach, apply, change, closing_never_claims, here, observe, register-Reach, stale_version_refused,
  then,
}

abbrev w1 : WorkerRef
w1 = record { worker_id = "w1"; generation = 2 }

abbrev registry : WorkerAuthority
registry = record { current_ref = w1 }

abbrev fresh : WorkerGeneration
fresh = record {
  ref = w1;
  host_id = "host";
  pool_id = "pool";
  cert_serial = "77";
  agent_version = "1.0";
  capabilities_digest = record { value = "sha256:00" };
  state = registering;
  registered_at = utc 10;
  state_changed_at = utc 10;
  last_seen_at = none;
  retired_at = none;
  version = 0;
}

abbrev idle : WorkerGeneration
idle = moved fresh ready (utc 20)

abbrev lost : WorkerGeneration
lost = moved idle offline (utc 30)

abbrev done : WorkerGeneration
done = moved (moved idle quarantined (utc 30)) retired (utc 40)

program : Unit {0}
unfolding register apply transition reconcile observe_assignments claimable_ref post_init is_blank
    require_utc ref_eq
program = tt

idle-IsValid : IsValid idle
unfolding is_blank
idle-IsValid = ground arith

done-IsValid : IsValid done
unfolding is_blank
done-IsValid = ground arith

abbrev working : WorkerGeneration
working = observed idle busy (utc 30)

apply-idle : apply idle (observe registry (pos 4) (pos 1) (utc 30)) ≡ ok working
unfolding program
apply-idle = refl

working_path : Reach idle 1 working
working_path = then here (observe registry (pos 4) (pos 1) (utc 30)) apply-idle

apply-fresh : apply fresh (change ready registry (pos 0) (utc 20)) ≡ ok idle
unfolding program
apply-fresh = refl

fresh_path : Reach fresh 1 idle
fresh_path = then here (change ready registry (pos 0) (utc 20)) apply-fresh

register-fresh :
    register w1 "host" "pool" "77" "1.0" (record { value = "sha256:00" }) (utc 10) ≡ ok fresh
unfolding program
register-fresh = refl

register-Reach_example :
    IsValid idle × (idle.ref ≡ w1) × (idle.version ≡ 1) × (10 ≤ idle.state_changed_at.instant)
register-Reach_example =
    register-Reach w1 "host" "pool" "77" "1.0" (record { value = "sha256:00" }) (utc 10)
      register-fresh fresh_path

abbrev held : WorkerGeneration
held = moved idle quarantined (utc 30)

held-IsValid : IsValid held
unfolding is_blank
held-IsValid = ground arith

apply-held : apply held (change retired registry (pos 2) (utc 40)) ≡ ok done
unfolding program
apply-held = refl

held_path : Reach held 1 done
held_path = then here (change retired registry (pos 2) (utc 40)) apply-held

closing_never_claims_example : claimable_ref done registry ≢ ok w1
closing_never_claims_example = closing_never_claims registry w1 held-IsValid (inl refl) held_path

stale_version_refused_example : apply working (change draining registry (pos 1) (utc 60)) ≢ ok lost
stale_version_refused_example =
    stale_version_refused lost (change draining registry (pos 1) (utc 60)) idle-IsValid working_path
      refl
