-- ===== src/Rbac.antt =====
-- core/rbac.py: roles, permissions and the audit log. The details and the address of an entry are
-- left out. A role that is none of the three is a ValueError.
pub mod Hierarchy
mod Tests
use multiagent_platform_v.Prelude.{
  Bool, List, Option, String, [], get_or, if◌then◌else◌, none, some, take, ℕ, ◌==◌, ◌∷◌,
}
use multiagent_platform_v.Documents.{AuditEntry}
use multiagent_platform_v.Http.{Http, http_error, respond}
use multiagent_platform_v.Redis.{Key, Redis}
use multiagent_platform_v.Redis.Commands.{contains, get, lpushed, ltrimmed}

-- the keys of the tenant dict that the program reads

pub record Tenant : Type 0 where
  pub tenant_id : String
  pub sector : String
  pub plan : Option String
  pub role : Option String
  pub user_id : Option String

pub data Role : Type 0 where
  admin analyst viewer : Role

-- PERMISSIONS
abbrev pub permissions : Role → List String
permissions admin =
    "analyze" ∷ "view_jobs" ∷ "view_costs" ∷ "view_dashboard" ∷ "manage_secrets" ∷ "reset_memory"
    ∷ "view_dlq" ∷ "retry_jobs" ∷ "manage_users" ∷ "approve_hitl" ∷ "view_audit_logs" ∷ []
permissions analyst =
    "analyze" ∷ "view_jobs" ∷ "view_costs" ∷ "view_dashboard" ∷ "approve_hitl" ∷ "retry_jobs" ∷ []
permissions viewer = "view_jobs" ∷ "view_costs" ∷ "view_dashboard" ∷ []

-- `Role(text)`
abbrev pub role_named : String → Option Role
role_named text =
    if text == "admin"
    then some admin
    else if text == "analyst"
    then some analyst
    else if text == "viewer"
    then some viewer
    else none

-- `Role(tenant.get("role", Role.VIEWER))`
abbrev pub role_of : Tenant → Option Role
role_of tenant = elim tenant.role [ none ↦ some viewer | some text ↦ role_named text ]

abbrev pub role_allows : Option Role → String → Option Bool
role_allows none permission = none
role_allows (some role) permission = some (contains permission (permissions role))

-- `none` is the ValueError
unfoldable pub has_permission : Tenant → String → Option Bool
has_permission tenant permission = role_allows (role_of tenant) permission

-- whom an API key belongs to; the query to PostgreSQL
abbrev pub Keyring : Type 0
Keyring = (api_key : String) → Option Tenant

-- api/deps.py, in front of every endpoint
unfoldable pub get_tenant : Keyring → (api_key : String) → Http Tenant
get_tenant keyring api_key = elim (keyring api_key) [
  | none ↦ http_error 401
  | some tenant ↦ respond tenant
]

-- the checker of a permission, from the header x-api-key; no endpoint uses it
unfoldable pub require_permission :
    Keyring → (permission : String) → (header : Option String) → Http Tenant
unfolding get_tenant has_permission
require_permission keyring permission header =
    let api_key = get_or header "" in
    if api_key == "" then http_error 401 else (elim (get_tenant keyring api_key) [
      | http_error code ↦ http_error code
      | respond tenant ↦ (elim (has_permission tenant permission) [
        | none ↦ http_error 500
        | some may ↦ if may then respond tenant else http_error 403
      ])
    ])

-- AUDIT_LOG_TTL, 90 days
abbrev pub audit_log_ttl : ℕ
audit_log_ttl = 7776000

module _ (R : Redis) where
  unfoldable pub audit_log :
      (tenant_id user_id action resource : String) → (success : Bool) → (now : ℕ) → R.Db → R.Db
  audit_log tenant_id user_id action resource success now s =
      let entry : AuditEntry = record {
        timestamp = now;
        tenant_id = tenant_id;
        user_id = user_id;
        action = action;
        resource = resource;
        success = success;
      } in
      let key = Key.audit tenant_id in
      R.update key (ltrimmed 10000) (R.expire key audit_log_ttl (R.update key (lpushed entry) s))

  unfoldable pub get_audit_logs : (tenant_id : String) → (limit : ℕ) → R.Db → List AuditEntry
  get_audit_logs tenant_id limit s = take limit (get_or (get R (Key.audit tenant_id) s) [])
