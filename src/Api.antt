-- ===== src/Api.antt =====
-- api/main.py: the endpoints that change the shared state, after api/deps.py has found the tenant.
-- The new job id, the clock and the user who stands for a missing one are arguments or the source's
-- defaults. What an endpoint sends to Celery is a list of messages.
pub mod Replays
pub mod Ownership
pub mod Webhooks
pub mod Outcomes
pub mod Recording
mod Tests
use multiagent_platform_v.Prelude.{
  Bool, List, Option, String, [], false, format, get_or, if◌then◌else◌, keep, length, none, some,
  take, true, ℕ, ◌==◌, ◌∷◌,
}
use multiagent_platform_v.State.{InputData}
use multiagent_platform_v.Documents.{DeadJob, Job, JobStatus, Rate, Response}
use multiagent_platform_v.Http.{Http, http_error, respond}
use multiagent_platform_v.Redis.{Key, Redis}
use multiagent_platform_v.Redis.Commands.{get}
use multiagent_platform_v.Idempotency.{check_idempotency, store_idempotency}
use multiagent_platform_v.RateLimiting.{
  Checked, RateLimits, check_rate_limit, retry_after, too_many, unlimited, within_limit,
}
use multiagent_platform_v.QueueControl.{
  Backpressure, allowed, check_backpressure, get_queue_for_sector, increment_queue,
}
use multiagent_platform_v.Jobs.{create_job, get_job, update_job}
use multiagent_platform_v.Rbac.{Tenant, audit_log, has_permission}
use multiagent_platform_v.Worker.{Message, Task, analyse, has_text}

-- RATE_LIMITS, MAX_QUEUE_SIZE and MAX_TENANT_QUEUE

pub record Limits : Type 0 where
  pub rates : RateLimits
  pub max_queue_size : ℕ
  pub max_tenant_queue : ℕ

-- the body of POST /analyze, whose `webhook_url` was validated
pub record AnalysisRequest : Type 0 where
  pub input_data : InputData
  pub webhook_url : Option String

-- the validated URL replaces the one in `input_data`
abbrev pub accepted_input : AnalysisRequest → InputData
accepted_input request = record request.input_data {
  webhook_url =
      if has_text request.webhook_url then request.webhook_url else request.input_data.webhook_url;
}

abbrev pub rate_of : Checked → Option Rate
rate_of (within_limit rate) = some rate
rate_of _ = none

abbrev pub is_allowed : Backpressure → Bool
is_allowed (allowed _ _) = true
is_allowed _ = false

abbrev pub user_of : Tenant → String
user_of tenant = get_or tenant.user_id "api"

abbrev pub response_of : (job_id sector : String) → Checked → Response
response_of job_id sector checked = record {
  job_id = job_id;
  queue = get_queue_for_sector sector;
  rate_limit = rate_of checked;
  idempotent_replay = false;
}

module _ (R : Redis) where
  -- a job is created, counted, sent, remembered for its key, and logged
  unfoldable pub accept :
      Tenant
      → AnalysisRequest
      → (idempotency_key job_id : String) → Checked
      → (now : ℕ) → R.Db
      → Http Response × List Message × R.Db
  accept tenant request idempotency_key job_id checked now s =
      let input_data = accepted_input request in
      let task : Task = record {
        job_id = job_id;
        tenant_id = tenant.tenant_id;
        sector = tenant.sector;
        input_data = input_data;
      } in
      let response = response_of job_id tenant.sector checked in
      let s1 = create_job R job_id tenant.tenant_id tenant.sector input_data now s in
      let s2 = increment_queue R tenant.tenant_id s1 in
      let s3 = store_idempotency R idempotency_key tenant.tenant_id response s2 in
      (
        respond response,
        analyse task (get_queue_for_sector tenant.sector) ∷ [],
        audit_log R tenant.tenant_id (user_of tenant) "analyze" (format ("job:" ∷ job_id ∷ [])) true
            now s3,
      )

  -- the checks in front of it: HTTP 429 and HTTP 503
  unfoldable pub admit :
      Limits
      → Tenant
      → AnalysisRequest
      → (idempotency_key job_id : String) → (now : ℕ) → Checked × R.Db
      → Http Response × List Message × R.Db
  unfolding accept
  admit limits tenant request key job_id now (too_many limit retry_after, s) =
      (http_error 429, [], s)
  admit limits tenant request key job_id now (unlimited, s) =
      if is_allowed
        (check_backpressure R limits.max_queue_size limits.max_tenant_queue tenant.tenant_id s)
      then accept tenant request key job_id unlimited now s
      else (http_error 503, [], s)
  admit limits tenant request key job_id now (within_limit rate, s) =
      if is_allowed
        (check_backpressure R limits.max_queue_size limits.max_tenant_queue tenant.tenant_id s)
      then accept tenant request key job_id (within_limit rate) now s
      else (http_error 503, [], s)

  -- a missing key is the empty one: both skip the lookup and the storing
  unfoldable pub analyze :
      Limits
      → Tenant
      → AnalysisRequest
      → (idempotency_key job_id : String) → (now : ℕ) → R.Db
      → Http Response × List Message × R.Db
  unfolding admit
  analyze limits tenant request key job_id now s =
      elim (check_idempotency R key tenant.tenant_id s) [
        | some cached ↦ (respond cached, [], s)
        | none ↦
            admit limits tenant request key job_id now (
              check_rate_limit R limits.rates tenant.tenant_id (get_or tenant.plan "starter") now s)
      ]

  -- `if not job or job["tenant_id"] != tenant_id`
  abbrev pub own : (tenant_id : String) → Option Job → Option Job
  own tenant_id none = none
  own tenant_id (some job) = if job.tenant_id == tenant_id then some job else none

  unfoldable pub get_job_status : Tenant → (job_id : String) → R.Db → Http Job
  get_job_status tenant job_id s = elim (own tenant.tenant_id (get_job R job_id s)) [
    | none ↦ http_error 404
    | some job ↦ respond job
  ]

  abbrev pub is_error : JobStatus → Bool
  is_error JobStatus.error = true
  is_error _ = false

  -- `delay` sends to the queue of `task_routes`
  unfoldable pub requeue :
      Tenant → Job → (job_id : String) → (now : ℕ) → R.Db → Http String × List Message × R.Db
  requeue tenant job job_id now s =
      let task : Task = record {
        job_id = job_id;
        tenant_id = tenant.tenant_id;
        sector = tenant.sector;
        input_data = job.input_data;
      } in
      let s1 = update_job R job_id JobStatus.queued none none now s in
      (
        respond "requeued",
        analyse task "heavy" ∷ [],
        audit_log R tenant.tenant_id (user_of tenant) "retry_job" (format ("job:" ∷ job_id ∷ []))
            true now s1,
      )

  unfoldable pub retry_own :
      Tenant → Option Job → (job_id : String) → (now : ℕ) → R.Db → Http String × List Message × R.Db
  unfolding requeue
  retry_own tenant none job_id now s = (http_error 404, [], s)
  retry_own tenant (some job) job_id now s =
      if is_error job.status then requeue tenant job job_id now s else (http_error 400, [], s)

  -- a role that is no role is an exception, HTTP 500
  unfoldable pub retry_job :
      Tenant → (job_id : String) → (now : ℕ) → R.Db → Http String × List Message × R.Db
  unfolding retry_own
  retry_job tenant job_id now s = elim (has_permission tenant "retry_jobs") [
    | none ↦ (http_error 500, [], s)
    | some false ↦ (http_error 403, [], s)
    | some true ↦ retry_own tenant (own tenant.tenant_id (get_job R job_id s)) job_id now s
  ]

  -- the last 50 failures, those of the tenant
  unfoldable pub get_dlq : Tenant → R.Db → List DeadJob
  get_dlq tenant s =
      keep (λ dead. dead.tenant_id == tenant.tenant_id) (take 50 (get_or (get R Key.dlq s) []))

-- GET /erp/items: the items of the ERP as they come, and nothing where the request raises
pub record ErpItems {ℓ} (A : Type ℓ) : Type ℓ where
  pub connected : Bool
  pub items : List A
  pub count : ℕ

unfoldable pub erp_items {ℓ} : {A : Type ℓ} → (answer : Option (List A)) → ErpItems A
erp_items none = record { connected = false; items = []; count = 0 }
erp_items (some items) = record { connected = true; items = items; count = length items }
