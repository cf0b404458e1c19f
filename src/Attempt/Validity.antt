-- ===== src/Attempt/Validity.antt =====
-- What the constructor of an Attempt accepts.
use qarunner.Prelude.{
  List, Option, String, [], arith, false, is_blank, none, ok, refl, same_iff, some, ℕ, ◌<◌, ◌↔◌,
  ◌∷◌, ◌≡◌, ◌≢◌, ◌≤◌,
}
use qarunner.Values.Canonical.{Hash}
use qarunner.Unknown.{UnknownAdjudication, UnknownObservation}
use qarunner.Retry.{RetryProvenance}
use qarunner.Evidence.Manifest.{EvidenceManifest}
use qarunner.Attempt.{
  Attempt, AttemptState, attempt_unknown, evidence_check, has_evidence, history_check,
  observation_check, post_init, provenance_check, state_of_outcome,
}

-- The evidence that a state asks for: a terminal state that is not unknown has evidence of its own
-- outcome, and any other has none.
abbrev pub EvidenceFits : AttemptState → Option EvidenceManifest → Type 0
EvidenceFits s none = has_evidence s ≡ false
EvidenceFits s (some m) = s ≡ state_of_outcome m.outcome

-- An unknown Attempt, and no other, has an observation.
abbrev pub ObservationFits : AttemptState → Option UnknownObservation → Type 0
ObservationFits s none = s ≢ attempt_unknown
ObservationFits s (some o) = s ≡ attempt_unknown

-- A first Attempt has no provenance, and a later one has that of another Attempt.
abbrev pub ProvenanceFits : ℕ → String → Option RetryProvenance → Type 0
ProvenanceFits n id none = n ≤ 1
ProvenanceFits n id (some p) = (2 ≤ n) × (p.source_attempt_id ≢ id)

pub record IsValid (sha256 : Hash) (a : Attempt) : Type 0 where
  pub id_named : is_blank a.id ≡ false
  pub run_named : is_blank a.run_id ≡ false
  pub assignment_named : is_blank a.assignment_id ≡ false
  pub key_named : is_blank a.start_commit_key ≡ false
  pub numbered : 0 < a.attempt_no
  pub fenced : 0 < a.fence
  pub evidence_fits : EvidenceFits a.state a.evidence
  pub observation_fits : ObservationFits a.state a.unknown_observation
  pub provenance_fits : ProvenanceFits a.attempt_no a.id a.retry_provenance
  pub history_fits : history_check sha256 a.id a.state a.unknown_observation a.adjudications ≡ ok tt

evidence_check_iff :
    (s : AttemptState) (o : Option EvidenceManifest)
    → (evidence_check s o ≡ ok tt) ↔ EvidenceFits s o
unfolding evidence_check
evidence_check_iff s none = ground arith
evidence_check_iff s (some m) = ground arith

observation_check_iff :
    (s : AttemptState) (o : Option UnknownObservation)
    → (observation_check s o ≡ ok tt) ↔ ObservationFits s o
unfolding observation_check
observation_check_iff s none = ground arith
observation_check_iff s (some m) = ground arith

provenance_check_iff :
    (n : ℕ) (id : String) (o : Option RetryProvenance)
    → 0 < n
    → (provenance_check n id o ≡ ok tt) ↔ ProvenanceFits n id o
unfolding provenance_check
provenance_check_iff n id none h = ground arith
provenance_check_iff n id (some p) h = ground (arith, same_iff p.source_attempt_id id)

pub post_init-IsValid :
    (sha256 : Hash) (a v : Attempt) → post_init sha256 a ≡ ok v → (v ≡ a) × IsValid sha256 a
unfolding post_init
post_init-IsValid sha256 a v h = ground (
  arith,
  evidence_check_iff a.state a.evidence,
  observation_check_iff a.state a.unknown_observation,
  provenance_check_iff a.attempt_no a.id a.retry_provenance,
)

pub post_init_accepts : (sha256 : Hash) (a : Attempt) → IsValid sha256 a → post_init sha256 a ≡ ok a
unfolding post_init
post_init_accepts sha256 a h = ground (
  arith,
  evidence_check_iff a.state a.evidence,
  observation_check_iff a.state a.unknown_observation,
  provenance_check_iff a.attempt_no a.id a.retry_provenance,
)

pub history_check-nil :
    (sha256 : Hash) (id : String) (s : AttemptState) (o : Option UnknownObservation)
    → history_check sha256 id s o [] ≡ ok tt
unfolding history_check
history_check-nil sha256 id s o = ground arith

-- Only an unknown Attempt has decisions.
pub no_history :
    (sha256 : Hash) (id : String) (s : AttemptState) (o : Option UnknownObservation)
    (rs : List UnknownAdjudication)
    → s ≢ attempt_unknown
    → history_check sha256 id s o rs ≡ ok tt
    → rs ≡ []
unfolding history_check
no_history sha256 id s o [] n h = refl
no_history sha256 id s o (r ∷ rs) n h = absurd (ground arith)
