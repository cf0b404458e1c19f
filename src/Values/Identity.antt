-- ===== src/Values/Identity.antt =====
-- Digest (domain/digest.py), WorkerRef (domain/worker.py), the authority snapshots
-- (domain/authority.py) and AttemptEvent (domain/event.py). Equality is that of the dataclasses.
use qarunner.Prelude.{Bool, String, same, ℕ, ◌&&◌, ◌==◌}

pub record Digest : Type 0 where
  pub value : String

pub record WorkerRef : Type 0 where
  pub worker_id : String
  pub generation : ℕ

pub record AttemptAuthority : Type 0 where
  pub current_fence : ℕ
  pub current_worker : WorkerRef

pub record WorkerAuthority : Type 0 where
  pub current_ref : WorkerRef

pub record AttemptEvent : Type 0 where
  pub event_id : String
  pub event_seq : ℕ
  pub event_type : String
  pub payload_digest : Digest

unfoldable pub digest_eq : Digest → Digest → Bool
digest_eq a b = same a.value b.value

unfoldable pub ref_eq : WorkerRef → WorkerRef → Bool
ref_eq a b = same a.worker_id b.worker_id && a.generation == b.generation

unfoldable pub event_eq : AttemptEvent → AttemptEvent → Bool
unfolding digest_eq
event_eq a b =
    same a.event_id b.event_id
    && a.event_seq == b.event_seq
    && same a.event_type b.event_type
    && digest_eq a.payload_digest b.payload_digest
