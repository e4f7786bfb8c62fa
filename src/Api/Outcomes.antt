-- ===== src/Api/Outcomes.antt =====
-- POST /outcomes/{job_id} of api/main.py: the demand that was met, compared with the last decision
-- for the product and put into the job. The UPDATE of the decision in PostgreSQL, whose exceptions
-- are caught, is not modelled.
use multiagent_platform_v.Prelude.{
  Bool, Option, String, [], false, format, get_or, if◌then◌else◌, none, some, true, ℕ, ℤ, ◌∷◌,
}
use multiagent_platform_v.Documents.{Job, JobStatus, Outcome}
use multiagent_platform_v.Http.{Http, http_error, respond}
use multiagent_platform_v.Redis.{Key, Redis}
use multiagent_platform_v.Redis.Commands.{setex}
use multiagent_platform_v.Jobs.{get_job, job_ttl}
use multiagent_platform_v.Rbac.{Tenant, audit_log}
use multiagent_platform_v.Memory.Safety.{MemorySettings, Saving, save_actual_outcome_safe, saved}
use multiagent_platform_v.Api.{own, user_of}

pub record OutcomeRequest : Type 0 where
  pub actual_demand : ℤ
  pub action_taken : Bool
  pub notes : Option String

pub record OutcomeResponse : Type 0 where
  pub product_id : String
  pub outcome : Outcome
  pub saving : Saving

abbrev pub is_completed : JobStatus → Bool
is_completed JobStatus.done = true
is_completed JobStatus.rejected = true
is_completed _ = false

-- `result.get("accuracy")`
abbrev pub accuracy_in : Saving → Option ℤ
accuracy_in (saved accuracy) = accuracy
accuracy_in _ = none

abbrev pub outcome_of : OutcomeRequest → Saving → (now : ℕ) → Outcome
outcome_of body saving now = record {
  actual_demand = body.actual_demand;
  action_taken = body.action_taken;
  notes = body.notes;
  accuracy = accuracy_in saving;
  recorded_at = now;
}

abbrev pub product_in : Job → String
product_in job = get_or job.input_data.product_id "DEFAULT"

module _ (R : Redis) (settings : MemorySettings) where
  -- the job is written back as it was read
  unfoldable pub record_completed :
      Tenant
      → Job
      → (job_id : String) → OutcomeRequest
      → (now : ℕ) → R.Db
      → Http OutcomeResponse × R.Db
  record_completed tenant job job_id body now s =
      let product_id = product_in job in
      let (saving, s1) =
        save_actual_outcome_safe R tenant.tenant_id tenant.sector product_id settings
          body.actual_demand now s in
      let outcome = outcome_of body saving now in
      (
        respond (record { product_id = product_id; outcome = outcome; saving = saving }),
        audit_log R tenant.tenant_id (user_of tenant) "record_outcome"
            (format ("job:" ∷ job_id ∷ [])) true now
            (setex R (Key.job job_id) job_ttl (record job { outcome = some outcome }) s1),
      )

  unfoldable pub record_own :
      Tenant
      → Option Job
      → (job_id : String) → OutcomeRequest
      → (now : ℕ) → R.Db
      → Http OutcomeResponse × R.Db
  unfolding record_completed
  record_own tenant none job_id body now s = (http_error 404, s)
  record_own tenant (some job) job_id body now s =
      if is_completed job.status
      then record_completed tenant job job_id body now s
      else (http_error 400, s)

  unfoldable pub record_outcome :
      Tenant → (job_id : String) → OutcomeRequest → (now : ℕ) → R.Db → Http OutcomeResponse × R.Db
  unfolding record_own
  record_outcome tenant job_id body now s =
      record_own tenant (own R tenant.tenant_id (get_job R job_id s)) job_id body now s
