-- ===== src/Values/Errors.antt =====
-- The exceptions of domain/errors.py that the modelled code raises, and `QueueOverflow` of
-- domain/bounded_queue.py, with their attributes. A state or a class is named by its value.
use qarunner.Prelude.{Result, String, ℕ, ℤ}
use qarunner.Values.Identity.{AttemptEvent, Digest, WorkerRef}

pub data DomainError : Type 0 where
  invalid : (entity_type field reason : String) → DomainError
  generation_conflict : (current received : WorkerRef) (reason : String) → DomainError
  not_claimable : (worker : WorkerRef) (reason : String) → DomainError
  lease_conflict : (assignment_id reason : String) → DomainError
  evidence_not_ready : (reason : String) → DomainError
  evidence_digest_mismatch : (claimed computed : Digest) → DomainError
  evidence_conflict : (stored_root received_root : Digest) → DomainError
  observation_conflict : (attempt_id observation_id : String) → DomainError
  adjudication_conflict : (attempt_id adjudication_id : String) → DomainError
  canonicalization : (reason : String) → DomainError
  artifact_invalid : (field reason : String) → DomainError
  invalid_transition :
      (entity_type entity_id current_state requested_state : String) (current_version : ℕ)
      (expected_version : ℤ)
      → DomainError
  idempotency_conflict : (scope key : String) (stored_digest received_digest : Digest) → DomainError
  assignment_conflict : (run_id assignment_id reason : String) → DomainError
  attempt_conflict : (run_id attempt_id reason : String) → DomainError
  cancellation_conflict : (run_id stored_key received_key : String) → DomainError
  retry_not_allowed : (run_id attempt_id adjudication_id reason : String) → DomainError
  review_required : (run_id attempt_id : String) (fence : ℕ) (reason : String) → DomainError
  event_conflict : (attempt_id : String) (stored_event received_event : AttemptEvent) → DomainError
  event_gap : (attempt_id : String) (expected_next received_seq : ℕ) → DomainError
  event_rejected : (attempt_id reason : String) → DomainError
  stale_fence : (attempt_id : String) (current_fence received_fence : ℕ) → DomainError
  stale_generation :
      (attempt_id : String) (current_worker received_worker : WorkerRef) → DomainError
  version_conflict :
      (entity_type entity_id : String) (current_version expected_version : ℕ) → DomainError
  queue_overflow :
      (queue_class : String) (current_depth max_depth : ℕ) (reason : String) → DomainError

-- What a domain command returns.
abbrev pub Command : Type 0 → Type 0
Command A = Result DomainError A
