-- ===== src/Worker/Endings.antt =====
-- What the ways in which an analysis can end mean for its job and for the dead-letter queue.
use multiagent_platform_v.Prelude.{
  Bool-cases, List, Option, Option-cases, String, [], get_or, if◌then◌else◌, inl, inr, ltb, none,
  refl, some, take, ℕ, ◌∙◌, ◌∷◌, ◌≡◌,
}
use multiagent_platform_v.Documents.{DeadJob, Job, JobStatus, JobResult}
use multiagent_platform_v.Redis.{Key, Redis}
use multiagent_platform_v.Jobs.{get_job, job_ttl, update_job, updated_job}
use multiagent_platform_v.Worker.{
  Ending, Task, TaskResult, finished, gave_up, hitl_pending, hitl_request, is_done, max_retries,
  push_to_dlq, raised, retrying, returned, soft_time_limit,
}

-- a result that waits for a reviewer without a request id is an exception

abbrev pub ending_of : Ending → Ending
ending_of (returned result) =
    if hitl_pending result
    then elim (hitl_request result) [ none ↦ raised "'request_id'" | some _ ↦ returned result ]
    else returned result
ending_of other = other

abbrev pub status_of : Ending → JobStatus
status_of (returned result) =
    if hitl_pending result
    then JobStatus.pending_human
    else if is_done result.status
    then JobStatus.done
    else JobStatus.error
status_of _ = JobStatus.error

abbrev pub failure_of : Ending → Option String
failure_of (returned _) = none
failure_of soft_time_limit = some "Job timeout after 5 minutes"
failure_of (raised reason) = some reason

abbrev pub result_of : (retries : ℕ) → Ending → TaskResult
result_of retries (raised _) = if ltb retries max_retries then retrying else gave_up
result_of retries _ = finished

module _ (R : Redis) (task : Task) where
  -- the task's job is there, with this status, and belongs to `tenant`
  abbrev pub HasStatus : (tenant : String) → JobStatus → R.Db → Type 0
  HasStatus tenant status s =
      (job : Job) × (get_job R task.job_id s ≡ some job)
      × (job.status ≡ status)
      × (job.tenant_id ≡ tenant)

  pub update_job-HasStatus :
      {tenant : String} {old : JobStatus} (status : JobStatus) (result : Option JobResult)
      (reason : Option String) (now : ℕ) (s : R.Db)
      → HasStatus tenant old s
      → HasStatus tenant status (update_job R task.job_id status result reason now s)
  unfolding update_job updated_job
  update_job-HasStatus status result reason now s (job, found, is_old, owned) =
      let job' = updated_job status result reason now job in
      (
        job',
        rw (update_job, found) (R.peek-store_self (Key.job task.job_id) job' (some job_ttl) s 0),
        refl,
        owned,
      )

  pub same-HasStatus :
      {tenant : String} {status : JobStatus} (s t : R.Db)
      → R.peek t (Key.job task.job_id) 0 ≡ R.peek s (Key.job task.job_id) 0
      → HasStatus tenant status s
      → HasStatus tenant status t
  same-HasStatus s t same (job, found, is_old, owned) = (job, same ∙ found, is_old, owned)

  pub renamed-HasStatus :
      {tenant : String} {status status' : JobStatus} (s : R.Db)
      → status ≡ status'
      → HasStatus tenant status s
      → HasStatus tenant status' s
  renamed-HasStatus s e (job, found, is_old, owned) = (job, found, is_old ∙ e, owned)

-- the last 500 failures, the newest first
abbrev pub dead_letters :
    Task → (now : ℕ) → Option String → Option (List DeadJob) → Option (List DeadJob)
dead_letters task now none dead = dead
dead_letters task now (some reason) dead = some (
    take 500 (
      record {
        job_id = task.job_id;
        tenant_id = task.tenant_id;
        failure = reason;
        input_data = task.input_data;
        failed_at = now;
      }
      ∷ get_or dead []))

-- the status that the `try` leaves, and the one after the `except` clauses
abbrev pub settled_status : Ending → JobStatus
settled_status (returned result) =
    if hitl_pending result
    then JobStatus.pending_human
    else if is_done result.status
    then JobStatus.done
    else JobStatus.error
settled_status _ = JobStatus.running

abbrev pub recovered_status : Ending → JobStatus → JobStatus
recovered_status (returned _) status = status
recovered_status _ _ = JobStatus.error

pub recovered-settled :
    (ending : Ending)
    → recovered_status (ending_of ending) (settled_status ending) ≡ status_of (ending_of ending)
recovered-settled (returned result) = elim (Bool-cases (hitl_pending result)) [
  | inl waits ↦ elim (Option-cases (hitl_request result)) [
    | inl absent ↦ rw (waits, absent) refl
    | inr (request_id, found) ↦ rw (waits, found, waits) refl
  ]
  | inr not_waits ↦ rw (not_waits, not_waits) refl
]
recovered-settled soft_time_limit = refl
recovered-settled (raised reason) = refl

module _ (R : Redis) (task : Task) (now : ℕ) where
  pub push_to_dlq-dead :
      (reason : String) (s : R.Db)
      → R.peek (push_to_dlq R task reason now s) Key.dlq 0
        ≡ dead_letters task now (some reason) (R.peek s Key.dlq 0)
  unfolding push_to_dlq
  push_to_dlq-dead reason s = elim (Option-cases (R.peek s Key.dlq 0)) [
    | inl none_yet ↦ rw (push_to_dlq, R.peek-update_self, R.peek-update_self, none_yet) refl
    | inr (dead, found) ↦ rw (push_to_dlq, R.peek-update_self, R.peek-update_self, found) refl
  ]
