-- ===== src/Worker/Tests.antt =====
-- The tasks at concrete inputs, on a server in memory.
use multiagent_platform_v.Prelude.{
  [], arith, false, none, pos, refl, some, true, ℕ, ◌∙◌, ◌∷◌, ◌≡◌, ◌⊎◌,
}
use multiagent_platform_v.Documents.{Job, JobStatus, resolved, verdict}
use multiagent_platform_v.State.{InputData, RunStatus, UniversalState, no_outputs}
use multiagent_platform_v.Redis.{Key}
use multiagent_platform_v.Redis.Commands.{get}
use multiagent_platform_v.Redis.Memory.{empty, memory, peek-empty}
use multiagent_platform_v.Hitl.{HitlSettings}
use multiagent_platform_v.JobLocking.{is_job_locked}
use multiagent_platform_v.QueueControl.{get_global_queue_depth}
use multiagent_platform_v.Jobs.{get_job, job_ttl, new_job}
use multiagent_platform_v.Worker.{
  Ending, Task, process_analysis_job, raised, resume, resume_hitl_job, suspend, gave_up, skipped,
}
use multiagent_platform_v.Worker.Process.{IsReleased, process_analysis_job-cleans_up, processed}
use multiagent_platform_v.Worker.Endings.{
  HasStatus, dead_letters, ending_of, failure_of, result_of, status_of,
}
use multiagent_platform_v.Worker.Outcome.{process_analysis_job-outcome, started}
use multiagent_platform_v.Worker.Retries.{deliver, deliver-lowers_thrice}
use multiagent_platform_v.Worker.Resume.{approval_loses_decision, closed_as, resume_hitl_job-closes}

abbrev order : InputData
order = record {
  location = some "Tunis, Tunisia";
  product_id = some "HARISSA-140G";
  webhook_url = none;
}

abbrev task : Task
task = record { job_id = "job-1"; tenant_id = "acme"; sector = "supply_chain"; input_data = order }

abbrev settings : HitlSettings
settings = record {
  timeout_seconds = 3600;
  confidence_threshold = 800;
  fallback_approve = true;
  has_webhook = false;
}

abbrev fails : memory.Db → Ending × memory.Db
fails s = (raised "no route to host", s)

process_analysis_job-cleans_up_example :
    let (result, sent, t) = processed memory settings 400 task 0 100 fails empty in
    let locked = is_job_locked memory 400 task.job_id empty in
    ((locked ≡ true) × (result ≡ skipped) × (sent ≡ []) × (t ≡ empty))
    ⊎ ((locked ≡ false) × IsReleased memory settings 400 task 0 100 fails empty t)
process_analysis_job-cleans_up_example =
    process_analysis_job-cleans_up memory settings 400 task 0 100 fails empty (λ s d. refl)
      (λ s d. refl)

abbrev job : Job
job = new_job "job-1" "acme" "supply_chain" order 100

abbrev queued : memory.Db
queued = memory.store (Key.job "job-1") job (some job_ttl) empty

found : get_job memory "job-1" queued ≡ some job
found = memory.peek-store_self (Key.job "job-1") job (some job_ttl) empty 0

no_lock : (d : ℕ) → memory.peek queued (Key.job_lock "job-1") d ≡ none
no_lock d =
    memory.peek-store_ne (Key.job "job-1") (Key.job_lock "job-1") job (some job_ttl) empty d
      (ground arith)
    ∙ peek-empty (Key.job_lock "job-1") d

unlocked : is_job_locked memory 400 "job-1" queued ≡ false
unfolding is_job_locked
unlocked = ground (arith, no_lock 0)

process_analysis_job-outcome_example :
    let ending = ending_of (fails (started memory settings 400 task 0 100 fails queued)).0 in
    let (result, sent, t) = process_analysis_job memory settings 400 task 0 fails 100 queued in
    (result ≡ result_of 0 ending)
    × HasStatus memory task "acme" (status_of ending) t
    × (memory.peek t Key.dlq 0
        ≡ dead_letters task 100 (failure_of ending) (memory.peek queued Key.dlq 0))
unfolding new_job
process_analysis_job-outcome_example =
    process_analysis_job-outcome memory settings 400 task 0 100 fails queued unlocked
      (job, found, refl, refl) (λ s d. refl) (λ s d. refl)

abbrev counted_db : memory.Db
counted_db = memory.store Key.queue_global (pos 3) none queued

deliver-lowers_thrice_example :
    ((deliver memory settings 400 task fails 5 0 100 counted_db).0 ≡ gave_up)
    × (get_global_queue_depth memory (deliver memory settings 400 task fails 5 0 100 counted_db).1
        ≡ pos 0)
deliver-lowers_thrice_example =
    deliver-lowers_thrice memory settings 400 task fails 5 0 100 counted_db
      (λ s. (("no route to host", refl), λ d. refl)) (omega arith)
      (λ d.
        memory.peek-store_ne Key.queue_global (Key.job_lock "job-1") (pos 3) none queued d
          (ground arith)
        ∙ no_lock d)
      (λ d. memory.peek-store_self Key.queue_global (pos 3) none queued d)

abbrev refused_db : memory.Db
refused_db =
    memory.store (Key.hitl_approval "req-1") (verdict false "nadia" "Too much") (some 3600) queued

found_refused : get_job memory "job-1" refused_db ≡ some job
found_refused =
    memory.peek-store_ne (Key.hitl_approval "req-1") (Key.job "job-1")
      (verdict false "nadia" "Too much") (some 3600) queued 0 (ground arith)
    ∙ found

resume_hitl_job-closes_example :
    get_job memory "job-1"
      (resume_hitl_job memory settings task "req-1" (some "Order 500.") 3700 refused_db).1
    ≡ some (
        closed_as memory settings task
          (get memory (Key.hitl_approval "req-1") refused_db)
          (some "Order 500.")
          3700
          job)
resume_hitl_job-closes_example =
    resume_hitl_job-closes memory settings task "req-1" (some "Order 500.") 3700 refused_db job
      found_refused

abbrev waiting : UniversalState
waiting = record {
  tenant_id = "acme";
  sector = "supply_chain";
  input_data = order;
  agent_outputs = record no_outputs {
    decision_text = some "Order 500.";
    hitl = some (record {
      approved = false;
      confidence = 500;
      requires_human = true;
      pending = true;
      request_id = some "req-1";
      final_decision = none;
    });
  };
  aggregated_insights = none;
  final_decision = none;
  errors = [];
  status = RunStatus.pending_human;
}

abbrev approved_db : memory.Db
approved_db =
    memory.store (Key.hitl_approval "req-1") (verdict true "nadia" "Approved") (some 3600) queued

approval_loses_decision_example :
    let (ending, sent, s') = suspend memory settings task waiting 100 queued in
    let (hooks, t') = resume_hitl_job memory settings task "req-1" none 3700 approved_db in
    (sent ≡ resume task "req-1" none settings.timeout_seconds ∷ [])
    × (get_job memory task.job_id t'
        ≡ some (record job {
          status = JobStatus.done;
          updated_at = 3700;
          result = some (
              resolved none (record { approved = true; reviewer = "nadia"; comment = "Approved" }));
        }))
approval_loses_decision_example =
    approval_loses_decision memory settings task "req-1" "nadia" "Approved" waiting 100 3700 queued
      approved_db job refl refl
      (memory.peek-store_ne (Key.hitl_approval "req-1") (Key.job "job-1")
          (verdict true "nadia" "Approved") (some 3600) queued 0 (ground arith)
        ∙ found)
      (memory.peek-store_self (Key.hitl_approval "req-1") (verdict true "nadia" "Approved")
        (some 3600) queued 0)
