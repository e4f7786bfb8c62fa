-- ===== src/Observability.antt =====
-- api/observability_routes.py, and the endpoints of api/main.py that only read: GET /jobs, /kpis,
-- /audit-logs, /queue-stats, /circuit-breakers, /rate-limit, /health and /sectors. Days, months and
-- times are the clock's, and the settings of the environment are arguments.
pub mod Isolation
mod Tests
use multiagent_platform_v.Prelude.{
  Bool, List, Option, String, [], false, get_or, if◌then◌else◌, keep, length, none, some, take,
  true, ℕ, ◌∷◌,
}
use multiagent_platform_v.Documents.{
  AuditEntry, Circuit, Job, JobStatus, ResetEntry, ResetReason, pending,
}
use multiagent_platform_v.Http.{Http, http_error, respond}
use multiagent_platform_v.Redis.{Redis}
use multiagent_platform_v.CircuitBreaker.{get_state}
use multiagent_platform_v.Jobs.{get_job, list_jobs}
use multiagent_platform_v.RateLimiting.{RateLimits, RateStatus, get_rate_limit_status}
use multiagent_platform_v.QueueControl.{QueueStats, get_queue_stats}
use multiagent_platform_v.Rbac.{Tenant, get_audit_logs, has_permission}
use multiagent_platform_v.Registry.{list_available_sectors}
use multiagent_platform_v.Costs.{CostSettings, CostSummary, get_cost_summary}
use multiagent_platform_v.Memory.{MemorySummary, get_memory_summary}
use multiagent_platform_v.Memory.Safety.{get_reset_log, reset_memory}
use multiagent_platform_v.Kpis.Report.{Report, count_in, get_business_kpis}
use multiagent_platform_v.Api.{own}

-- the moment of a request

pub record Clock : Type 0 where
  pub now : ℕ
  pub day : ℕ
  pub month : ℕ

-- a status as it is stored
abbrev pub status_name : JobStatus → String
status_name JobStatus.queued = "queued"
status_name JobStatus.running = "running"
status_name JobStatus.pending_human = "pending_human"
status_name JobStatus.done = "done"
status_name JobStatus.rejected = "rejected"
status_name JobStatus.error = "error"

-- `status_counts[s] = status_counts.get(s, 0) + 1`
abbrev pub count_statuses : List Job → List (String × ℕ) → List (String × ℕ)
count_statuses [] counts = counts
count_statuses (job ∷ jobs) counts = count_statuses jobs (count_in (status_name job.status) counts)

abbrev pub waits_for_human : Job → Bool
waits_for_human job = elim job.status [ JobStatus.pending_human ↦ true | _ ↦ false ]

pub record Dashboard : Type 0 where
  pub tenant_id : String
  pub sector : String
  pub costs : CostSummary
  pub rate_limit : RateStatus
  pub total : ℕ
  pub by_status : List (String × ℕ)
  pub recent : List Job
  pub pending_count : ℕ
  pub pending_jobs : List Job

unfoldable pub dashboard_of : Tenant → CostSummary → RateStatus → List Job → Dashboard
dashboard_of tenant costs rate_limit jobs =
    let pending = keep waits_for_human jobs in
    record {
      tenant_id = tenant.tenant_id;
      sector = tenant.sector;
      costs = costs;
      rate_limit = rate_limit;
      total = length jobs;
      by_status = count_statuses jobs [];
      recent = take 5 jobs;
      pending_count = length pending;
      pending_jobs = pending;
    }

abbrev pub plan_of : Tenant → String
plan_of tenant = get_or tenant.plan "starter"

module _ (R : Redis) (tenant : Tenant) where
  unfoldable pub get_costs : CostSettings → Clock → R.Db → CostSummary
  get_costs settings clock s = get_cost_summary R tenant.tenant_id clock.day clock.month settings s

  unfoldable pub rate_limit : RateLimits → Clock → R.Db → RateStatus
  rate_limit limits clock s =
      get_rate_limit_status R limits tenant.tenant_id (plan_of tenant) clock.now s

  unfoldable pub get_dashboard : CostSettings → RateLimits → Clock → R.Db → Dashboard
  unfolding dashboard_of get_costs rate_limit
  get_dashboard settings limits clock s =
      dashboard_of tenant (get_costs settings clock s) (rate_limit limits clock s)
        (list_jobs R tenant.tenant_id 10 s)

  -- `list_jobs` without a limit of its own takes 20
  unfoldable pub get_all_jobs : R.Db → List Job
  get_all_jobs s = list_jobs R tenant.tenant_id 20 s

  unfoldable pub get_job_detail : (job_id : String) → R.Db → Http Job
  get_job_detail job_id s = elim (own R tenant.tenant_id (get_job R job_id s)) [
    | none ↦ http_error 404
    | some job ↦ respond job
  ]

  unfoldable pub get_memory : (product_id : String) → R.Db → Option MemorySummary × List ResetEntry
  get_memory product_id s = (
    get_memory_summary R tenant.tenant_id tenant.sector product_id s,
    get_reset_log R tenant.tenant_id tenant.sector product_id s,
  )

  -- whether there was a memory to reset; every role may
  unfoldable pub reset_memory_endpoint : (product_id : String) → (now : ℕ) → R.Db → Bool × R.Db
  reset_memory_endpoint product_id now s =
      reset_memory R tenant.tenant_id tenant.sector product_id ResetReason.manual_api now s

  unfoldable pub business_kpis : (savings : ℕ) → (days : ℕ) → Clock → R.Db → Option Report
  business_kpis savings days clock s =
      get_business_kpis R tenant.tenant_id savings days clock.now clock.day s

  -- a role that is no role is an exception, HTTP 500
  unfoldable pub audit_logs : R.Db → Http (List AuditEntry)
  audit_logs s = elim (has_permission tenant "view_audit_logs") [
    | none ↦ http_error 500
    | some may ↦ if may then respond (get_audit_logs R tenant.tenant_id 100 s) else http_error 403
  ]

module _ (R : Redis) (failure_threshold recovery_timeout : ℕ) where
  unfoldable pub health : (max_queue_size : ℕ) → R.Db → List String × QueueStats
  health max_queue_size s = (list_available_sectors, get_queue_stats R max_queue_size s)

  -- the breakers that this process has made, in order
  unfoldable pub circuit_breakers : (names : List String) → R.Db → List (String × Circuit)
  circuit_breakers [] s = []
  circuit_breakers (name ∷ names) s =
      (name, get_state R failure_threshold recovery_timeout name s) ∷ circuit_breakers names s
