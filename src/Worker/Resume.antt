-- ===== src/Worker/Resume.antt =====
-- From a result that waits for a reviewer to the end of its job.
use multiagent_platform_v.Prelude.{
  Bool, Option, String, [], ap, false, format, if◌then◌else◌, none, refl, some, true, ℕ, ◌∙◌, ◌∷◌,
  ◌≡◌,
}
use multiagent_platform_v.Documents.{Approval, Job, JobStatus, pending, verdict, resolved}
use multiagent_platform_v.State.{UniversalState}
use multiagent_platform_v.Redis.{Key, Redis}
use multiagent_platform_v.Redis.Commands.{get}
use multiagent_platform_v.Hitl.{
  HitlSettings, decide, fallback_comment, finalise, rejection, resolve_hitl,
}
use multiagent_platform_v.Jobs.{get_job, job_ttl, update_job, updated_job}
use multiagent_platform_v.Worker.{
  Task, hitl_request, result_of_resolved, resume, resume_hitl_job, suspend,
}

module _ (R : Redis) (settings : HitlSettings) (task : Task) where
  resume_hitl_job-decides :
      (request_id : String) (text : Option String) (now : ℕ) (s : R.Db) (job : Job)
      → get_job R task.job_id s ≡ some job
      → let answer = get R (Key.hitl_approval request_id) s in
        let outcome = decide R settings answer text in
        let (sent, t) = resume_hitl_job R settings task request_id text now s in
        get_job R task.job_id t
        ≡ some (record job {
          status = (if outcome.approved then JobStatus.done else JobStatus.rejected);
          updated_at = now;
          result = some (result_of_resolved outcome);
        })
  unfolding resume_hitl_job resolve_hitl update_job updated_job
  resume_hitl_job-decides request_id text now s job found =
      rw (resume_hitl_job, resolve_hitl, update_job, found)
        (R.peek-store_self (Key.job task.job_id) _ (some job_ttl) s 0)

  -- what the task makes of an answer: the text of the decision, as the task was given it, if it is a
  -- yes, and what the reviewer wrote if it is a no
  abbrev closed_by :
      (approved : Bool) (reviewer comment : String) → Option String → (now : ℕ) → Job → Job
  closed_by true reviewer comment text now job = record job {
    status = JobStatus.done;
    updated_at = now;
    result =
        some (resolved text (record { approved = true; reviewer = reviewer; comment = comment }));
  }
  closed_by false reviewer comment text now job = record job {
    status = JobStatus.rejected;
    updated_at = now;
    result = some (
        resolved (some (format ("[REJECTED by " ∷ reviewer ∷ "] " ∷ comment ∷ [])))
          (record { approved = false; reviewer = reviewer; comment = comment }));
  }

  -- the job after the task, by the answer that is stored
  abbrev pub closed_as : Option Approval → Option String → (now : ℕ) → Job → Job
  closed_as (some (verdict approved reviewer comment)) text now job =
      closed_by approved reviewer comment text now job
  closed_as _ text now job =
      if settings.fallback_approve
      then closed_by true "auto-timeout" "Auto-approved after timeout" text now job
      else closed_by false "auto-timeout" "Rejected: no response within timeout" text now job

  -- `resume_hitl_job` closes its job by the stored answer. A yes makes it done, with the text that
  -- the task carries as the final decision; a no makes it rejected, with the reviewer's comment as
  -- the final decision. Where no answer is stored, or it is still pending, the setting for the
  -- timeout decides in the name of "auto-timeout". The review is in the job's result, and nothing
  -- else changes in the job but the time of its last update.
  pub resume_hitl_job-closes :
      (request_id : String) (text : Option String) (now : ℕ) (s : R.Db) (job : Job)
      → get_job R task.job_id s ≡ some job
      → get_job R task.job_id (resume_hitl_job R settings task request_id text now s).1
        ≡ some (closed_as (get R (Key.hitl_approval request_id) s) text now job)
  unfolding decide finalise rejection fallback_comment
  resume_hitl_job-closes request_id text now s job found =
      resume_hitl_job-decides request_id text now s job found
      ∙ ap some (by_answer (get R (Key.hitl_approval request_id) s))
    where
      by_setting :
          (yes : Bool)
          → record job {
            status =
                (if (finalise text yes "auto-timeout" (fallback_comment yes)).approved
                  then JobStatus.done
                  else JobStatus.rejected);
            updated_at = now;
            result =
                some (result_of_resolved (finalise text yes "auto-timeout" (fallback_comment yes)));
          }
            ≡ (if yes
                then closed_by true "auto-timeout" "Auto-approved after timeout" text now job
                else closed_by false "auto-timeout" "Rejected: no response within timeout" text now
                    job)
      by_setting true = refl
      by_setting false = refl

      by_answer :
          (answer : Option Approval)
          → record job {
            status =
                (if (decide R settings answer text).approved
                  then JobStatus.done
                  else JobStatus.rejected);
            updated_at = now;
            result = some (result_of_resolved (decide R settings answer text));
          }
            ≡ closed_as answer text now job
      by_answer none = by_setting settings.fallback_approve
      by_answer (some pending) = by_setting settings.fallback_approve
      by_answer (some (verdict true reviewer comment)) = refl
      by_answer (some (verdict false reviewer comment)) = refl

  -- the arguments of the task that `process_analysis_job` schedules for a result that waits
  suspend-resume :
      (request_id : String) (result : UniversalState) (now : ℕ) (s : R.Db)
      → hitl_request result ≡ some request_id
      → (suspend R settings task result now s).1
        ≡ resume task request_id result.final_decision settings.timeout_seconds ∷ []
  unfolding suspend
  suspend-resume request_id result now s h = rw (suspend, h) refl

  -- A result waits for a reviewer and carries no final decision. Whatever decision text it has, the
  -- scheduled task is not given it; and when a reviewer has approved, that task marks the job as
  -- done with no final decision.
  pub approval_loses_decision :
      (request_id reviewer comment : String) (result : UniversalState) (now later : ℕ) (s t : R.Db)
      (job : Job)
      → hitl_request result ≡ some request_id
      → result.final_decision ≡ none
      → get_job R task.job_id t ≡ some job
      → get R (Key.hitl_approval request_id) t ≡ some (verdict true reviewer comment)
      → let (ending, sent, s') = suspend R settings task result now s in
        let (hooks, t') = resume_hitl_job R settings task request_id none later t in
        (sent ≡ resume task request_id none settings.timeout_seconds ∷ [])
        × (get_job R task.job_id t'
            ≡ some (record job {
              status = JobStatus.done;
              updated_at = later;
              result = some (
                  resolved none
                    (record { approved = true; reviewer = reviewer; comment = comment }));
            }))
  unfolding decide finalise
  approval_loses_decision request_id reviewer comment result now later s t job waits undecided found
        approved =
      (
        suspend-resume request_id result now s waits
            ∙ ap (λ d. resume task request_id d settings.timeout_seconds ∷ []) undecided,
        resume_hitl_job-decides request_id none later t job found
            ∙ ap
                (λ a. some (record job {
                  status =
                      (if (decide R settings a none).approved
                        then JobStatus.done
                        else JobStatus.rejected);
                  updated_at = later;
                  result = some (result_of_resolved (decide R settings a none));
                }))
                approved,
      )
