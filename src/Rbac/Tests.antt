-- ===== src/Rbac/Tests.antt =====
-- Roles and the audit log at concrete inputs, on a server in memory.
use multiagent_platform_v.Prelude.{Option, String, false, none, refl, some, true, ◌≡◌}
use multiagent_platform_v.Rbac.{Tenant, has_permission}

abbrev with_role : Option String → Tenant
with_role role = record {
  tenant_id = "acme";
  sector = "supply_chain";
  plan = none;
  role = role;
  user_id = none;
}

-- a tenant without a role is a viewer
viewer_by_default : has_permission (with_role none) "retry_jobs" ≡ some false
unfolding has_permission
viewer_by_default = refl

may_retry : has_permission (with_role (some "analyst")) "retry_jobs" ≡ some true
unfolding has_permission
may_retry = refl
