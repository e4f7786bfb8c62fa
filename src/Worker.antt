-- ===== src/Worker.antt =====
-- worker.py: the two Celery tasks. `run_analysis` is an argument of the first task: what it does to
-- the server and how it ends. The clock is read once for a task. What a task sends (messages to
-- Celery, client webhooks) is a list; a webhook whose delivery fails changes nothing.
pub mod Frame
pub mod Process
pub mod Endings
pub mod Outcome
pub mod Retries
pub mod Resume
mod Tests
use multiagent_platform_v.Prelude.{
  Bool, List, Option, String, [], false, get_or, if◌then◌else◌, ltb, none, not, some, true, ℕ, ◌++◌,
  ◌+◌, ◌==◌, ◌∷◌,
}
use multiagent_platform_v.State.{UniversalState, RunStatus, InputData}
use multiagent_platform_v.Documents.{DeadJob, JobResult, JobStatus, analysis, partial, resolved}
use multiagent_platform_v.Redis.{Key, Redis}
use multiagent_platform_v.Redis.Commands.{lpushed, ltrimmed, setex}
use multiagent_platform_v.QueueControl.{decrement_queue}
use multiagent_platform_v.JobLocking.{acquire_job_lock, release_job_lock}
use multiagent_platform_v.Jobs.{get_job, update_job}
use multiagent_platform_v.Hitl.{HitlSettings, Resolved, resolve_hitl}

-- the arguments of `process_analysis_job`

pub record Task : Type 0 where
  pub job_id : String
  pub tenant_id : String
  pub sector : String
  pub input_data : InputData

pub data Event : Type 0 where
  completed : JobStatus → Event
  timeout : Event
  hitl_resolved : JobStatus → (approved : Bool) → (reviewer : String) → Event

pub data Message : Type 0 where
  -- process_analysis_job, sent to a queue by the API or again by `self.retry`
  analyse : Task → (queue : String) → Message
  retry : Task → (retries : ℕ) → Message
  -- resume_hitl_job with its countdown
  resume :
      Task → (request_id : String) → (decision_text : Option String) → (countdown : ℕ) → Message
  webhook : (url : String) → (job_id : String) → Event → Message

-- how `run_analysis` ends: its result, SoftTimeLimitExceeded, which is taken to strike nowhere
-- else, or another exception
pub data Ending : Type 0 where
  returned : UniversalState → Ending
  soft_time_limit : Ending
  raised : String → Ending

-- how the task ends
pub data TaskResult : Type 0 where
  skipped finished retrying gave_up : TaskResult

abbrev pub max_retries : ℕ
max_retries = 2

-- `if webhook_url:`
abbrev pub has_text : Option String → Bool
has_text none = false
has_text (some text) = not (text == "")

abbrev pub notify : Option String → (job_id : String) → Event → List Message
notify url job_id event = if has_text url then webhook (get_or url "") job_id event ∷ [] else []

abbrev pub is_done : RunStatus → Bool
is_done RunStatus.done = true
is_done _ = false

abbrev pub hitl_pending : UniversalState → Bool
hitl_pending result = elim result.agent_outputs.hitl [ none ↦ false | some hitl ↦ hitl.pending ]

abbrev pub hitl_request : UniversalState → Option String
hitl_request result = elim result.agent_outputs.hitl [ none ↦ none | some hitl ↦ hitl.request_id ]

abbrev pub status_of_resolved : Resolved → JobStatus
status_of_resolved r = if r.approved then JobStatus.done else JobStatus.rejected

abbrev pub result_of_resolved : Resolved → JobResult
result_of_resolved r =
    resolved r.final_decision
      (record { approved = r.approved; reviewer = r.reviewer; comment = r.comment })

module _ (R : Redis) where
  -- `_push_to_dlq`: the last 500 failures are kept
  unfoldable pub push_to_dlq : Task → (reason : String) → (now : ℕ) → R.Db → R.Db
  push_to_dlq task reason now s =
      let entry : DeadJob = record {
        job_id = task.job_id;
        tenant_id = task.tenant_id;
        failure = reason;
        input_data = task.input_data;
        failed_at = now;
      } in
      R.update Key.dlq (ltrimmed 500) (R.update Key.dlq (lpushed entry) s)

  -- the `else` branch; the webhook reads the job back, and a job that is gone is an exception
  unfoldable pub conclude : Task → UniversalState → (now : ℕ) → R.Db → Ending × List Message × R.Db
  conclude task result now s =
      let status = if is_done result.status then JobStatus.done else JobStatus.error in
      let s1 = update_job R task.job_id status (some (analysis result)) none now s in
      elim (get_job R task.job_id s1) [
        | none ↦ (
          if has_text task.input_data.webhook_url
              then raised "'NoneType' object has no attribute 'get'"
              else returned result,
          [],
          s1,
        )
        | some job ↦ (
          returned result,
          notify task.input_data.webhook_url task.job_id (completed job.status),
          s1,
        )
      ]

  -- the `except` clauses; `retries` is how often the task was retried before
  unfoldable pub recover :
      Task → (retries now : ℕ) → Ending × List Message × R.Db → TaskResult × List Message × R.Db
  recover task retries now (returned result, sent, s) = (finished, sent, s)
  recover task retries now (soft_time_limit, sent, s) =
      let reason : String = "Job timeout after 5 minutes" in
      let s1 = update_job R task.job_id JobStatus.error none (some reason) now s in
      (
        finished,
        sent ++ notify task.input_data.webhook_url task.job_id Event.timeout,
        push_to_dlq task reason now s1,
      )
  recover task retries now (raised reason, sent, s) =
      let s1 = update_job R task.job_id JobStatus.error none (some reason) now s in
      let again = ltb retries max_retries in
      (
        if again then retrying else gave_up,
        if again then sent ++ retry task (retries + 1) ∷ [] else sent,
        push_to_dlq task reason now s1,
      )

module _ (R : Redis) (settings : HitlSettings) where
  -- the `if hitl.get("pending")` branch; a missing request id is a KeyError
  unfoldable pub suspend : Task → UniversalState → (now : ℕ) → R.Db → Ending × List Message × R.Db
  suspend task result now s =
      let s1 = update_job R task.job_id JobStatus.pending_human none none now s in
      elim (hitl_request result) [
        | none ↦ (raised "'request_id'", [], s1)
        | some request_id ↦
            let text = get_or result.agent_outputs.decision_text "" in
            let s2 =
              update_job R task.job_id JobStatus.pending_human
                (some (partial result request_id text)) none now s1 in
            (
              returned result,
              resume task request_id result.final_decision settings.timeout_seconds ∷ [],
              setex R (Key.hitl_job task.job_id) settings.timeout_seconds request_id s2,
            )
      ]

  -- the `try` after `run_analysis`
  unfoldable pub settle : Task → (now : ℕ) → Ending → R.Db → Ending × List Message × R.Db
  settle task now (returned result) s =
      if hitl_pending result then suspend task result now s else conclude R task result now s
  settle task now soft_time_limit s = (soft_time_limit, [], s)
  settle task now (raised reason) s = (raised reason, [], s)

  -- the body of the `try`
  unfoldable pub attempt :
      Task → (run_analysis : R.Db → Ending × R.Db) → (now : ℕ) → R.Db → Ending × List Message × R.Db
  attempt task run_analysis now s =
      let s1 = update_job R task.job_id JobStatus.running none none now s in
      let (ending, s2) = run_analysis s1 in settle task now ending s2

  pub resume_hitl_job :
      Task
      → (request_id : String) → (decision_text : Option String) → (now : ℕ) → R.Db
      → List Message × R.Db
  resume_hitl_job task request_id decision_text now s =
      let result = resolve_hitl R settings request_id decision_text s in
      let status = status_of_resolved result in
      (
        notify task.input_data.webhook_url task.job_id
            (hitl_resolved status result.approved result.reviewer),
        update_job R task.job_id status (some (result_of_resolved result)) none now s,
      )

module _ (R : Redis) (lock_ttl : ℕ) where
  -- the `finally` clause
  unfoldable pub clean_up : Task → R.Db → R.Db
  clean_up task s = decrement_queue R task.tenant_id (release_job_lock R lock_ttl task.job_id s)

module _ (R : Redis) (settings : HitlSettings) (lock_ttl : ℕ) where
  pub process_analysis_job :
      Task
      → (retries : ℕ) → (run_analysis : R.Db → Ending × R.Db) → (now : ℕ) → R.Db
      → TaskResult × List Message × R.Db
  process_analysis_job task retries run_analysis now s =
      let (acquired, s1) = acquire_job_lock R lock_ttl task.job_id s in
      let (result, sent, s2) =
        recover R task retries now (attempt R settings task run_analysis now s1) in
      if acquired then (result, sent, clean_up R lock_ttl task s2) else (skipped, [], s1)
