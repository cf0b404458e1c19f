-- ===== src/Access.antt =====
-- domain/rbac.py: which business role may take which action on whose object.
pub mod Duties
mod Examples
use qarunner.Prelude.{Bool, String, false, if◌then◌else◌, true}

pub data BusinessRole : Type 0 where
  admin : BusinessRole
  owner : BusinessRole
  maintainer : BusinessRole
  user : BusinessRole
  reviewer : BusinessRole
  operator : BusinessRole
  auditor : BusinessRole

pub data AuthorizationAction : Type 0 where
  suite_register : AuthorizationAction
  suite_publish_revision : AuthorizationAction
  suite_retire : AuthorizationAction
  batch_create : AuthorizationAction
  batch_cancel : AuthorizationAction
  batch_read : AuthorizationAction
  attempt_adjudicate : AuthorizationAction
  audit_read : AuthorizationAction
  worker_read : AuthorizationAction
  worker_drain : AuthorizationAction

pub data OwnershipScope : Type 0 where
  own : OwnershipScope
  other : OwnershipScope
  any_owner : OwnershipScope

pub record AuthorizationDecision : Type 0 where
  pub role : BusinessRole
  pub action : AuthorizationAction
  pub ownership : OwnershipScope
  pub allowed : Bool
  pub decision : String
  pub reason : String

-- `action in _ROLE_GLOBAL_ACTIONS.get(role, frozenset())`.
unfoldable pub role_global_actions : BusinessRole → AuthorizationAction → Bool
role_global_actions admin a = true
role_global_actions operator worker_read = true
role_global_actions operator worker_drain = true
role_global_actions operator batch_read = true
role_global_actions operator audit_read = true
role_global_actions auditor audit_read = true
role_global_actions auditor batch_read = true
role_global_actions auditor worker_read = true
role_global_actions reviewer attempt_adjudicate = true
role_global_actions reviewer batch_read = true
role_global_actions reviewer audit_read = true
role_global_actions _ _ = false

-- `action in _ROLE_OWNED_ACTIONS.get(role, frozenset())`.
unfoldable pub role_owned_actions : BusinessRole → AuthorizationAction → Bool
role_owned_actions owner suite_register = true
role_owned_actions owner suite_publish_revision = true
role_owned_actions owner suite_retire = true
role_owned_actions owner batch_create = true
role_owned_actions owner batch_cancel = true
role_owned_actions owner batch_read = true
role_owned_actions owner audit_read = true
role_owned_actions maintainer suite_register = true
role_owned_actions maintainer suite_publish_revision = true
role_owned_actions maintainer batch_create = true
role_owned_actions maintainer batch_read = true
role_owned_actions maintainer audit_read = true
role_owned_actions user batch_create = true
role_owned_actions user batch_cancel = true
role_owned_actions user batch_read = true
role_owned_actions _ _ = false

-- `_allow` and `_deny`.
abbrev pub allow : BusinessRole → AuthorizationAction → OwnershipScope → AuthorizationDecision
allow role action ownership = record {
  role = role;
  action = action;
  ownership = ownership;
  allowed = true;
  decision = "allow";
  reason = "permitted";
}

abbrev pub deny :
    BusinessRole → AuthorizationAction → OwnershipScope → String → AuthorizationDecision
deny role action ownership reason = record {
  role = role;
  action = action;
  ownership = ownership;
  allowed = false;
  decision = "deny";
  reason = reason;
}

abbrev pub is_admin : BusinessRole → Bool
is_admin admin = true
is_admin _ = false

-- The last tests, on an action that needs ownership.
unfoldable pub authorize_owned :
    BusinessRole → AuthorizationAction → OwnershipScope → AuthorizationDecision
authorize_owned role action other = deny role action other "not_owner"
authorize_owned role action any_owner = deny role action any_owner "not_owner"
authorize_owned role action own = allow role action own

unfoldable pub authorize :
    BusinessRole → AuthorizationAction → OwnershipScope → AuthorizationDecision
unfolding role_global_actions role_owned_actions authorize_owned
authorize role action ownership =
    if is_admin role
    then allow role action ownership
    else if role_global_actions role action
    then allow role action ownership
    else if role_owned_actions role action
    then authorize_owned role action ownership
    else deny role action ownership "role_not_permitted"
