-- ===== src/Observability/Tests.antt =====
-- The views of one tenant beside the costs of another, on a server in memory.
use multiagent_platform_v.Prelude.{arith, eq_iff, false, none, some, sym, ◌≡◌, ◌≢◌}
use multiagent_platform_v.Redis.{Key}
use multiagent_platform_v.Redis.Memory.{empty, memory}
use multiagent_platform_v.RateLimiting.{RateLimits}
use multiagent_platform_v.Rbac.{Tenant}
use multiagent_platform_v.Costs.{CostSettings}
use multiagent_platform_v.Observability.{
  Clock, audit_logs, business_kpis, get_all_jobs, get_costs, get_dashboard, get_memory,
}
use multiagent_platform_v.Observability.Isolation.{IsOwn, LooksAlike, shown-isolated}

abbrev acme : Tenant
acme = record {
  tenant_id = "acme";
  sector = "supply_chain";
  plan = some "pro";
  role = some "analyst";
  user_id = none;
}

abbrev settings : CostSettings
settings = record {
  request_limit = 500000;
  daily_limit = 10000000;
  monthly_limit = 100000000;
  has_webhook = false;
}

abbrev limits : RateLimits
limits = record { starter = 10; pro = 60; enterprise = 999999 }

abbrev clock : Clock
clock = record { now = 100; day = 20; month = 3 }

-- another tenant has spent 2 dollars
abbrev others : memory.Db
others = memory.store (Key.cost_daily "globex" 20) 2000000 none empty

empty-others : LooksAlike memory acme empty others
empty-others k mine =
    sym (memory.peek-store_ne (Key.cost_daily "globex" 20) k 2000000 none empty 0 (apart k mine))
  where
    apart : (k : Key) → IsOwn "acme" k → Key.cost_daily "globex" 20 ≢ k
    apart (Key.cost_daily t d) mine = ground (arith, eq_iff "globex" "acme")
    apart k mine = ground arith

shown-isolated_example :
    (get_dashboard memory acme settings limits clock empty
      ≡ get_dashboard memory acme settings limits clock others)
    × (get_all_jobs memory acme empty ≡ get_all_jobs memory acme others)
    × (get_costs memory acme settings clock empty ≡ get_costs memory acme settings clock others)
    × (get_memory memory acme "HARISSA-140G" empty ≡ get_memory memory acme "HARISSA-140G" others)
    × (business_kpis memory acme 5000 7 clock empty ≡ business_kpis memory acme 5000 7 clock others)
    × (audit_logs memory acme empty ≡ audit_logs memory acme others)
shown-isolated_example =
    shown-isolated memory acme empty others settings limits clock "HARISSA-140G" 5000 7 empty-others
