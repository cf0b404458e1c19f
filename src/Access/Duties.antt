-- ===== src/Access/Duties.antt =====
-- The matrix read the other way: who may do what.
use qarunner.Prelude.{◌≡◌, ◌⊎◌}
use qarunner.Access.{
  AuthorizationAction, BusinessRole, OwnershipScope, attempt_adjudicate, audit_read, auditor,
  batch_cancel, batch_create, batch_read, maintainer, operator, own, owner, reviewer,
  suite_publish_revision, suite_register, suite_retire, user, worker_drain, worker_read,
}

-- The roles that an action is for beside the administrator, with the ownership that each needs.
abbrev pub Duty : AuthorizationAction → BusinessRole → OwnershipScope → Type 0
Duty suite_register r o = ((r ≡ owner) ⊎ (r ≡ maintainer)) × (o ≡ own)
Duty suite_publish_revision r o = ((r ≡ owner) ⊎ (r ≡ maintainer)) × (o ≡ own)
Duty suite_retire r o = (r ≡ owner) × (o ≡ own)
Duty batch_create r o = ((r ≡ owner) ⊎ (r ≡ maintainer) ⊎ (r ≡ user)) × (o ≡ own)
Duty batch_cancel r o = ((r ≡ owner) ⊎ (r ≡ user)) × (o ≡ own)
Duty batch_read r o =
    (r ≡ operator)
    ⊎ (r ≡ auditor)
    ⊎ (r ≡ reviewer)
    ⊎ ((r ≡ owner) ⊎ (r ≡ maintainer) ⊎ (r ≡ user)) × (o ≡ own)
Duty attempt_adjudicate r o = r ≡ reviewer
Duty audit_read r o =
    (r ≡ operator) ⊎ (r ≡ auditor) ⊎ (r ≡ reviewer) ⊎ ((r ≡ owner) ⊎ (r ≡ maintainer)) × (o ≡ own)
Duty worker_read r o = (r ≡ operator) ⊎ (r ≡ auditor)
Duty worker_drain r o = r ≡ operator
