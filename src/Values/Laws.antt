-- ===== src/Values/Laws.antt =====
-- The equality tests decide equality, and the version check passes at one version only.
use qarunner.Prelude.{String, arith, ok, pos, same_iff, true, ℕ, ℤ, ◌↔◌, ◌≡◌}
use qarunner.Values.{
  AttemptEvent, Digest, WorkerRef, digest_eq, ensure_expected_version, event_eq, ref_eq,
}

pub digest_eq_iff : (a b : Digest) → (digest_eq a b ≡ true) ↔ (a ≡ b)
unfolding digest_eq
digest_eq_iff a b = ground (arith, same_iff a.value b.value)

pub ref_eq_iff : (a b : WorkerRef) → (ref_eq a b ≡ true) ↔ (a ≡ b)
unfolding ref_eq
ref_eq_iff a b = ground (arith, same_iff a.worker_id b.worker_id)

pub event_eq_iff : (a b : AttemptEvent) → (event_eq a b ≡ true) ↔ (a ≡ b)
unfolding event_eq
event_eq_iff a b = ground (
  arith,
  same_iff a.event_id b.event_id,
  same_iff a.event_type b.event_type,
  digest_eq_iff a.payload_digest b.payload_digest,
)

pub ensure_expected_version_iff :
    (entity_type entity_id : String) (current : ℕ) (expected : ℤ)
    → (ensure_expected_version entity_type entity_id current expected ≡ ok tt)
      ↔ (expected ≡ pos current)
unfolding ensure_expected_version
ensure_expected_version_iff t i c e = ground arith
