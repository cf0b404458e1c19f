-- ===== src/Unknown.antt =====
-- domain/unknown.py: the observation that makes an Attempt unknown, and the decisions that a
-- reviewer appends to it.
pub mod Basis
mod Examples
use qarunner.Prelude.{
  Bool, Option, String, String-discrete, false, is_blank, is_none, is_some, none, ok, raise_if,
  some, true, ℕ_discrete, ◌>>◌,
}
use qarunner.Values.{Command, DateTime, Digest, DomainError, invalid, require_utc}
use qarunner.Values.Canonical.{Hash, digest_json, end, member, obj, optional, str, time}

pub data UnknownReason : Type 0 where
  worker_lost_after_commit : UnknownReason
  cancel_stop_unproven : UnknownReason
  lease_stop_unproven : UnknownReason
  reconcile_ambiguous : UnknownReason
  execution_stop_unproven : UnknownReason

pub data UnknownSource : Type 0 where
  coordinator : UnknownSource
  cancel_convergence : UnknownSource
  lease_watchdog : UnknownSource
  reconciler : UnknownSource

pub data UnknownAdjudicationDecision : Type 0 where
  confirm_stopped_then_retry : UnknownAdjudicationDecision
  accept_duplicate_risk_then_retry : UnknownAdjudicationDecision
  mark_infra_failed_no_retry : UnknownAdjudicationDecision
  mark_completed_from_verified_evidence : UnknownAdjudicationDecision

abbrev pub permits_retry : UnknownAdjudicationDecision → Bool
permits_retry confirm_stopped_then_retry = true
permits_retry accept_duplicate_risk_then_retry = true
permits_retry _ = false

abbrev reason_value : UnknownReason → String
reason_value worker_lost_after_commit = "worker_lost_after_commit"
reason_value cancel_stop_unproven = "cancel_stop_unproven"
reason_value lease_stop_unproven = "lease_stop_unproven"
reason_value reconcile_ambiguous = "reconcile_ambiguous"
reason_value execution_stop_unproven = "execution_stop_unproven"

abbrev source_value : UnknownSource → String
source_value coordinator = "coordinator"
source_value cancel_convergence = "cancel_convergence"
source_value lease_watchdog = "lease_watchdog"
source_value reconciler = "reconciler"

pub record UnknownObservation : Type 0 where
  pub id : String
  pub reason : UnknownReason
  pub source : UnknownSource
  pub review_basis_digest : Digest
  pub recorded_at : DateTime

unfoldable pub observation_post_init : UnknownObservation → Command UnknownObservation
unfolding require_utc
observation_post_init o = do
  raise_if (is_blank o.id) (invalid "unknown_observation" "id" "empty")
  require_utc "unknown_observation" "recorded_at" o.recorded_at
  ok o

-- The payload holds texts only, so `canonical_digest` never refuses it.
unfoldable pub observation_digest : Hash → UnknownObservation → Digest
observation_digest sha256 o = sha256 "qep.unknown-observation.v1" (
    obj (
      member "id" (str o.id) (
        member "reason" (str (reason_value o.reason)) (
          member "source" (str (source_value o.source)) (
            member "review_basis_digest" (digest_json o.review_basis_digest)
              (member "recorded_at" (time o.recorded_at) end))))))

pub record UnknownAdjudication : Type 0 where
  pub id : String
  pub attempt_id : String
  pub unknown_observation_digest : Digest
  pub decision : UnknownAdjudicationDecision
  pub actor_id : String
  pub reason : String
  pub occurred_at : DateTime
  pub proof_digest : Option Digest
  pub risk_approver_id : Option String
  pub risk_acceptance_digest : Option Digest
  pub evidence_root_digest : Option Digest
  pub supersedes_adjudication_id : Option String

abbrev bad : String → String → DomainError
bad = invalid "unknown_adjudication"

-- `_require_nonempty_string`, where the value may be missing.
nonempty? : String → Option String → Command (Unit {0})
nonempty? field none = ok tt
nonempty? field (some s) = raise_if (is_blank s) (bad field "empty")

require {ℓ} : {A : Type ℓ} → String → Option A → Command (Unit {0})
require field o = raise_if (is_none o) (bad field "required_for_decision")

-- One field of `_forbid_authority_basis`.
forbid {ℓ} : {A : Type ℓ} → String → Option A → Command (Unit {0})
forbid field o = raise_if (is_some o) (bad field "not_allowed_for_decision")

basis_check : UnknownAdjudicationDecision → UnknownAdjudication → Command (Unit {0})
unfolding require forbid
basis_check confirm_stopped_then_retry a = do
  require "proof_digest" a.proof_digest
  forbid "risk_approver_id" a.risk_approver_id
  forbid "risk_acceptance_digest" a.risk_acceptance_digest
  forbid "evidence_root_digest" a.evidence_root_digest
basis_check accept_duplicate_risk_then_retry a = do
  require "risk_approver_id" a.risk_approver_id
  require "risk_acceptance_digest" a.risk_acceptance_digest
  forbid "proof_digest" a.proof_digest
  forbid "evidence_root_digest" a.evidence_root_digest
basis_check mark_infra_failed_no_retry a = do
  forbid "proof_digest" a.proof_digest
  forbid "risk_approver_id" a.risk_approver_id
  forbid "risk_acceptance_digest" a.risk_acceptance_digest
  forbid "evidence_root_digest" a.evidence_root_digest
basis_check mark_completed_from_verified_evidence a = do
  require "evidence_root_digest" a.evidence_root_digest
  forbid "proof_digest" a.proof_digest
  forbid "risk_approver_id" a.risk_approver_id
  forbid "risk_acceptance_digest" a.risk_acceptance_digest

unfoldable pub adjudication_post_init : UnknownAdjudication → Command UnknownAdjudication
unfolding require_utc nonempty? basis_check
adjudication_post_init a = do
  raise_if (is_blank a.id) (bad "id" "empty")
  raise_if (is_blank a.attempt_id) (bad "attempt_id" "empty")
  raise_if (is_blank a.actor_id) (bad "actor_id" "empty")
  raise_if (is_blank a.reason) (bad "reason" "empty")
  require_utc "unknown_adjudication" "occurred_at" a.occurred_at
  nonempty? "risk_approver_id" a.risk_approver_id
  nonempty? "supersedes_adjudication_id" a.supersedes_adjudication_id
  basis_check a.decision a
  ok a

-- The equality of the dataclasses.
pub UnknownObservation-discrete : Discrete UnknownObservation
UnknownObservation-discrete = hlevel (ℕ_discrete, String-discrete)

pub UnknownAdjudication-discrete : Discrete UnknownAdjudication
UnknownAdjudication-discrete = hlevel (ℕ_discrete, String-discrete)

abbrev pub decision_value : UnknownAdjudicationDecision → String
decision_value confirm_stopped_then_retry = "confirm_stopped_then_retry"
decision_value accept_duplicate_risk_then_retry = "accept_duplicate_risk_then_retry"
decision_value mark_infra_failed_no_retry = "mark_infra_failed_no_retry"
decision_value mark_completed_from_verified_evidence = "mark_completed_from_verified_evidence"

-- The payload holds texts only here too.
unfoldable pub adjudication_digest : Hash → UnknownAdjudication → Digest
adjudication_digest sha256 a = sha256 "qep.unknown-adjudication.v1" (
    obj (
      member "id" (str a.id) (
        member "attempt_id" (str a.attempt_id) (
          member "unknown_observation_digest" (digest_json a.unknown_observation_digest) (
            member "decision" (str (decision_value a.decision)) (
              member "actor_id" (str a.actor_id) (
                member "reason" (str a.reason) (
                  member "occurred_at" (time a.occurred_at) (
                    member "proof_digest" (optional digest_json a.proof_digest) (
                      member "risk_approver_id" (optional str a.risk_approver_id) (
                        member "risk_acceptance_digest"
                          (optional digest_json a.risk_acceptance_digest)
                          (member "evidence_root_digest"
                            (optional digest_json a.evidence_root_digest)
                            (member "supersedes_adjudication_id"
                              (optional str a.supersedes_adjudication_id) end)))))))))))))
