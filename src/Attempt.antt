-- ===== src/Attempt.antt =====
-- domain/attempt.py: the record of one committed execution attempt and what its constructor checks.
-- The commands on it, and what they keep, are the children.
pub mod Commands
pub mod Finalize
pub mod Validity
pub mod Events
pub mod History
mod Examples
use qarunner.Prelude.{
  Bool, List, Option, String, [], any, false, is_blank, is_empty, is_none, is_some, ltb, none, not,
  ok, raise_if, same, some, true, ℕ, ◌&&◌, ◌==◌, ◌>>◌, ◌||◌, ◌∷◌,
}
use qarunner.Values.{
  AttemptEvent, Command, Digest, DomainError, WorkerRef, before, digest_eq, invalid,
}
use qarunner.Values.Canonical.{Hash}
use qarunner.Unknown.{
  UnknownAdjudication, UnknownAdjudicationDecision, UnknownObservation,
  mark_completed_from_verified_evidence, observation_digest,
}
use qarunner.Retry.{RetryProvenance}
use qarunner.Evidence.Classify.{EvidenceOutcome}
use qarunner.Evidence.Manifest.{EvidenceManifest}

pub data AttemptState : Type 0 where
  start_committed : AttemptState
  provisioning : AttemptState
  running : AttemptState
  uploading : AttemptState
  passed : AttemptState
  test_failed : AttemptState
  infra_failed : AttemptState
  cancelled : AttemptState
  attempt_unknown : AttemptState

abbrev pub state_value : AttemptState → String
state_value start_committed = "start_committed"
state_value provisioning = "provisioning"
state_value running = "running"
state_value uploading = "uploading"
state_value AttemptState.passed = "passed"
state_value AttemptState.test_failed = "test_failed"
state_value AttemptState.infra_failed = "infra_failed"
state_value AttemptState.cancelled = "cancelled"
state_value attempt_unknown = "attempt_unknown"

-- `state in _TERMINAL_STATES`.
abbrev pub is_terminal : AttemptState → Bool
is_terminal start_committed = false
is_terminal provisioning = false
is_terminal running = false
is_terminal uploading = false
is_terminal _ = true

abbrev pub is_unknown : AttemptState → Bool
is_unknown attempt_unknown = true
is_unknown _ = false

-- `AttemptState(outcome.value)`.
abbrev pub state_of_outcome : EvidenceOutcome → AttemptState
state_of_outcome EvidenceOutcome.passed = AttemptState.passed
state_of_outcome EvidenceOutcome.test_failed = AttemptState.test_failed
state_of_outcome EvidenceOutcome.infra_failed = AttemptState.infra_failed
state_of_outcome EvidenceOutcome.cancelled = AttemptState.cancelled

-- `state is AttemptState(outcome.value)`.
abbrev pub is_outcome : EvidenceOutcome → AttemptState → Bool
is_outcome EvidenceOutcome.passed AttemptState.passed = true
is_outcome EvidenceOutcome.test_failed AttemptState.test_failed = true
is_outcome EvidenceOutcome.infra_failed AttemptState.infra_failed = true
is_outcome EvidenceOutcome.cancelled AttemptState.cancelled = true
is_outcome _ _ = false

pub record Attempt : Type 0 where
  pub id : String
  pub run_id : String
  pub attempt_no : ℕ
  pub fence : ℕ
  pub assignment_id : String
  pub worker : WorkerRef
  pub spec_digest : Digest
  pub start_commit_key : String
  pub events : List AttemptEvent
  pub evidence : Option EvidenceManifest
  pub unknown_observation : Option UnknownObservation
  pub adjudications : List UnknownAdjudication
  pub state : AttemptState
  pub version : ℕ
  pub retry_provenance : Option RetryProvenance

abbrev bad : String → String → DomainError
bad = invalid "attempt"

-- `state in _EVIDENCE_TERMINAL_STATES`.
abbrev pub has_evidence : AttemptState → Bool
has_evidence s = is_terminal s && not (is_unknown s)

evidence_check : AttemptState → Option EvidenceManifest → Command (Unit {0})
evidence_check s none = raise_if (has_evidence s) (bad "evidence" "required_for_terminal")
evidence_check s (some m) = do
  raise_if (not (has_evidence s)) (bad "evidence" "forbidden_for_state")
  raise_if (not (is_outcome m.outcome s)) (bad "evidence" "outcome_mismatch")

observation_check : AttemptState → Option UnknownObservation → Command (Unit {0})
observation_check s o = do
  raise_if (is_unknown s && is_none o) (bad "unknown_observation" "required_for_unknown")
  raise_if (not (is_unknown s) && is_some o) (bad "unknown_observation" "only_allowed_for_unknown")

provenance_check : ℕ → String → Option RetryProvenance → Command (Unit {0})
provenance_check attempt_no id none =
    raise_if (ltb 1 attempt_no) (bad "retry_provenance" "required_for_retry_attempt")
provenance_check attempt_no id (some p) = do
  raise_if (ltb attempt_no 2) (bad "retry_provenance" "not_allowed_for_first_attempt")
  raise_if (same p.source_attempt_id id) (bad "retry_provenance" "source_is_self")

-- `record.unknown_observation_digest != observation_digest`.
abbrev other_digest : Hash → Option UnknownObservation → UnknownAdjudication → Bool
other_digest sha256 none r = true
other_digest sha256 (some o) r =
    not (digest_eq r.unknown_observation_digest (observation_digest sha256 o))

abbrev before_unknown : Option UnknownObservation → UnknownAdjudication → Bool
before_unknown none r = false
before_unknown (some o) r = before r.occurred_at o.recorded_at

-- `len(ids) != len(set(ids))`.
abbrev repeats_id : List UnknownAdjudication → Bool
repeats_id [] = false
repeats_id (r ∷ rs) = any (λ q. same r.id q.id) rs || repeats_id rs

-- `record.supersedes_adjudication_id != expected`.
abbrev pub id_differs : Option String → Option String → Bool
id_differs none none = false
id_differs (some a) (some b) = not (same a b)
id_differs _ _ = true

-- The loop over `expected_superseded_id`.
abbrev pub breaks_chain : Option String → List UnknownAdjudication → Bool
breaks_chain expected [] = false
breaks_chain expected (r ∷ rs) =
    id_differs r.supersedes_adjudication_id expected || breaks_chain (some r.id) rs

-- Some decision is earlier than the one before it.
abbrev goes_back : List UnknownAdjudication → Bool
goes_back [] = false
goes_back (r ∷ []) = false
goes_back (r ∷ q ∷ rs) = before q.occurred_at r.occurred_at || goes_back (q ∷ rs)

abbrev is_completed : UnknownAdjudicationDecision → Bool
is_completed mark_completed_from_verified_evidence = true
is_completed _ = false

abbrev marks_completed : UnknownAdjudication → Bool
marks_completed r = is_completed r.decision

-- `_validate_adjudication_history`.
pub history_check :
    Hash
    → String
    → AttemptState
    → Option UnknownObservation
    → List UnknownAdjudication
    → Command (Unit {0})
history_check sha256 id state o rs = do
  raise_if (not (is_empty rs) && not (is_unknown state))
      (bad "adjudications" "only_allowed_for_unknown")
  raise_if (any (λ r. not (same r.attempt_id id)) rs) (bad "adjudications" "attempt_mismatch")
  raise_if (any (other_digest sha256 o) rs) (bad "adjudications" "observation_mismatch")
  raise_if (any (before_unknown o) rs) (bad "adjudications" "before_unknown")
  raise_if (repeats_id rs) (bad "adjudications" "duplicate_id")
  raise_if (breaks_chain none rs) (bad "adjudications" "supersession_mismatch")
  raise_if (goes_back rs) (bad "adjudications" "occurred_at_not_monotonic")
  raise_if (any marks_completed rs)
      (bad "adjudications" "verified_evidence_adjudication_not_supported")

-- `__post_init__`.
pub post_init : Hash → Attempt → Command Attempt
unfolding evidence_check observation_check provenance_check history_check
post_init sha256 a = do
  raise_if (is_blank a.id) (bad "id" "empty")
  raise_if (is_blank a.run_id) (bad "run_id" "empty")
  raise_if (is_blank a.assignment_id) (bad "assignment_id" "empty")
  raise_if (is_blank a.start_commit_key) (bad "start_commit_key" "empty")
  raise_if (a.attempt_no == 0) (bad "attempt_no" "not_positive")
  raise_if (a.fence == 0) (bad "fence" "not_positive")
  evidence_check a.state a.evidence
  observation_check a.state a.unknown_observation
  provenance_check a.attempt_no a.id a.retry_provenance
  history_check sha256 a.id a.state a.unknown_observation a.adjudications
  ok a
