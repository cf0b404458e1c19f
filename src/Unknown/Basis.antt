-- ===== src/Unknown/Basis.antt =====
-- Which decisions on an unknown Attempt the constructor accepts.
use qarunner.Prelude.{
  Option, String, arith, false, is_blank, is_some, none, ok, some, true, ◌↔◌, ◌≡◌,
}
use qarunner.Values.{is_utc}
use qarunner.Unknown.{
  UnknownAdjudication, UnknownAdjudicationDecision, accept_duplicate_risk_then_retry,
  adjudication_post_init, confirm_stopped_then_retry, mark_completed_from_verified_evidence,
  mark_infra_failed_no_retry,
}

abbrev pub NotBlank? : Option String → Type 0
NotBlank? none = Unit
NotBlank? (some s) = is_blank s ≡ false

-- What each decision rests on, and on nothing else.
abbrev pub Rests : UnknownAdjudicationDecision → UnknownAdjudication → Type 0
Rests confirm_stopped_then_retry a =
    (is_some a.proof_digest ≡ true)
    × (a.risk_approver_id ≡ none)
    × (a.risk_acceptance_digest ≡ none)
    × (a.evidence_root_digest ≡ none)
Rests accept_duplicate_risk_then_retry a =
    (a.proof_digest ≡ none)
    × (is_some a.risk_approver_id ≡ true)
    × (is_some a.risk_acceptance_digest ≡ true)
    × (a.evidence_root_digest ≡ none)
Rests mark_infra_failed_no_retry a =
    (a.proof_digest ≡ none)
    × (a.risk_approver_id ≡ none)
    × (a.risk_acceptance_digest ≡ none)
    × (a.evidence_root_digest ≡ none)
Rests mark_completed_from_verified_evidence a =
    (a.proof_digest ≡ none)
    × (a.risk_approver_id ≡ none)
    × (a.risk_acceptance_digest ≡ none)
    × (is_some a.evidence_root_digest ≡ true)

pub record IsWellFormed (a : UnknownAdjudication) : Type 0 where
  pub id_named : is_blank a.id ≡ false
  pub attempt_named : is_blank a.attempt_id ≡ false
  pub actor_named : is_blank a.actor_id ≡ false
  pub reasoned : is_blank a.reason ≡ false
  pub in_utc : is_utc a.occurred_at ≡ true
  pub approver_named : NotBlank? a.risk_approver_id
  pub superseded_named : NotBlank? a.supersedes_adjudication_id

-- A decision is accepted exactly when its names are not blank, its time is in UTC, and it rests on
-- its own kind of authority alone: a stop proof, an approver with an accepted risk, nothing, or
-- verified evidence. It is kept as given.
pub adjudication_iff :
    (a b : UnknownAdjudication)
    → (adjudication_post_init a ≡ ok b) ↔ (IsWellFormed a × Rests a.decision a × (b ≡ a))
unfolding adjudication_post_init
adjudication_iff a b = ground arith
