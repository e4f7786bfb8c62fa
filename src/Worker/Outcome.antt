-- ===== src/Worker/Outcome.antt =====
-- The job and the dead-letter queue after `process_analysis_job`, by the way the analysis ends.
use multiagent_platform_v.Prelude.{
  Bool-cases, List, Option-cases, String, ap, arith, false, get_or, if◌then◌else◌, inl, inr, none,
  refl, some, ℕ, ◌∙◌, ◌≡◌, ◌≢◌,
}
use multiagent_platform_v.Documents.{JobStatus, analysis, partial}
use multiagent_platform_v.State.{UniversalState}
use multiagent_platform_v.Redis.{Key, Redis}
use multiagent_platform_v.Hitl.{HitlSettings}
use multiagent_platform_v.JobLocking.{is_job_locked}
use multiagent_platform_v.Worker.Endings.{
  HasStatus, dead_letters, ending_of, failure_of, push_to_dlq-dead, recovered-settled,
  recovered_status, renamed-HasStatus, result_of, same-HasStatus, settled_status, status_of,
  update_job-HasStatus,
}
use multiagent_platform_v.Worker.Process.{IsUntouched, clean_up-IsSame, guarded, process_free}
use multiagent_platform_v.Jobs.Store.{update_job-other}
use multiagent_platform_v.Jobs.{update_job}
use multiagent_platform_v.Worker.Frame.{attempt-IsSame, push_to_dlq-IsSame}
use multiagent_platform_v.Worker.{
  Ending, Message, Task, attempt, clean_up, conclude, hitl_pending, hitl_request, is_done,
  process_analysis_job, push_to_dlq, raised, recover, returned, settle, soft_time_limit, suspend,
}

module _ (R : Redis) (settings : HitlSettings) (task : Task) (now : ℕ) {tenant : String} where
  suspend-HasStatus :
      {old : JobStatus} (result : UniversalState) (s : R.Db)
      → HasStatus R task tenant old s
      → ((suspend R settings task result now s).0
          ≡ elim (hitl_request result) [ none ↦ raised "'request_id'" | some _ ↦ returned result ])
        × HasStatus R task tenant JobStatus.pending_human (suspend R settings task result now s).2
  unfolding suspend
  suspend-HasStatus result s h =
      let s1 = update_job R task.job_id JobStatus.pending_human none none now s in
      let h1 = update_job-HasStatus R task JobStatus.pending_human none none now s h in
      elim (Option-cases (hitl_request result)) [
        | inl absent ↦ rw (suspend, absent) (refl, h1)
        | inr (request_id, found) ↦
            let text = get_or result.agent_outputs.decision_text "" in
            let p = some (partial result request_id text) in
            rw (suspend, found)
              (
                refl,
                same-HasStatus R task
                    (update_job R task.job_id JobStatus.pending_human p none now s1) _
                    (R.peek-store_ne (Key.hitl_job task.job_id) (Key.job task.job_id) request_id _ _
                      0 (ground arith))
                    (update_job-HasStatus R task JobStatus.pending_human p none now s1 h1),
              )
      ]

  conclude-HasStatus :
      {old : JobStatus} (result : UniversalState) (s : R.Db)
      → HasStatus R task tenant old s
      → ((conclude R task result now s).0 ≡ returned result)
        × HasStatus R task tenant
            (if is_done result.status then JobStatus.done else JobStatus.error)
            (conclude R task result now s).2
  unfolding conclude
  conclude-HasStatus result s h =
      let status = if is_done result.status then JobStatus.done else JobStatus.error in
      let (job, found, same, owned) =
        update_job-HasStatus R task status (some (analysis result)) none now s h in
      rw (conclude, found) (refl, (job, found, same, owned))

  settle-HasStatus :
      (ending : Ending) (s : R.Db)
      → HasStatus R task tenant JobStatus.running s
      → ((settle R settings task now ending s).0 ≡ ending_of ending)
        × HasStatus R task tenant (settled_status ending) (settle R settings task now ending s).2
  unfolding settle
  settle-HasStatus (returned result) s h = elim (Bool-cases (hitl_pending result)) [
    | inl waits ↦ rw (settle, waits) (suspend-HasStatus result s h)
    | inr not_waits ↦ rw (settle, not_waits) (conclude-HasStatus result s h)
  ]
  settle-HasStatus soft_time_limit s h = (refl, h)
  settle-HasStatus (raised reason) s h = (refl, h)

  failed :
      (reason : String) {old : JobStatus} (s : R.Db)
      → HasStatus R task tenant old s
      → let t =
          push_to_dlq R task reason now
            (update_job R task.job_id JobStatus.error none (some reason) now s) in
        HasStatus R task tenant JobStatus.error t
        × (R.peek t Key.dlq 0 ≡ dead_letters task now (some reason) (R.peek s Key.dlq 0))
  failed reason s h =
      let s1 = update_job R task.job_id JobStatus.error none (some reason) now s in
      (
        same-HasStatus R task s1 (push_to_dlq R task reason now s1)
            (push_to_dlq-IsSame R settings task (Key.job task.job_id) (ground arith) reason now s1
              0)
            (update_job-HasStatus R task JobStatus.error none (some reason) now s h),
        push_to_dlq-dead R task now reason s1
            ∙ ap (dead_letters task now (some reason)) (
                update_job-other R task.job_id JobStatus.error none (some reason) now Key.dlq 0 s
                  (ground arith)),
      )

  recover-HasStatus :
      (retries : ℕ) {old : JobStatus} (ending : Ending) (sent : List Message) (s : R.Db)
      → HasStatus R task tenant old s
      → let (result, sent', t) = recover R task retries now (ending, sent, s) in
        (result ≡ result_of retries ending)
        × HasStatus R task tenant (recovered_status ending old) t
        × (R.peek t Key.dlq 0 ≡ dead_letters task now (failure_of ending) (R.peek s Key.dlq 0))
  unfolding recover
  recover-HasStatus retries (returned result) sent s h = (refl, h, refl)
  recover-HasStatus retries soft_time_limit sent s h =
      let (set, dead) = failed "Job timeout after 5 minutes" s h in (refl, set, dead)
  recover-HasStatus retries (raised reason) sent s h =
      let (set, dead) = failed reason s h in (refl, set, dead)

module _ (R : Redis) (settings : HitlSettings) (lock_ttl : ℕ) (task : Task) (retries now : ℕ)
    (run_analysis : R.Db → Ending × R.Db) where
  guarded-outcome :
      {tenant : String} {old : JobStatus} (s : R.Db)
      → HasStatus R task tenant old s
      → IsUntouched R settings lock_ttl task retries now run_analysis (Key.job task.job_id)
      → IsUntouched R settings lock_ttl task retries now run_analysis Key.dlq
      → let ending =
          ending_of (run_analysis (update_job R task.job_id JobStatus.running none none now s)).0 in
        let (result, sent, t) = guarded R settings lock_ttl task retries now run_analysis s in
        (result ≡ result_of retries ending)
        × HasStatus R task tenant (status_of ending) t
        × (R.peek t Key.dlq 0 ≡ dead_letters task now (failure_of ending) (R.peek s Key.dlq 0))
  unfolding attempt
  guarded-outcome s h job dead =
      let s1 = update_job R task.job_id JobStatus.running none none now s in
      let (ending, s2) = run_analysis s1 in
      let h1 = update_job-HasStatus R task JobStatus.running none none now s h in
      let (e, h2) =
        settle-HasStatus R settings task now ending s2
          (same-HasStatus R task s1 s2 (job s1 0) h1) in
      let (ending', sent, s3) = settle R settings task now ending s2 in
      let (result, h3, dead3) = recover-HasStatus R settings task now retries ending' sent s3 h2 in
      let dead_same =
        attempt-IsSame R settings task Key.dlq
          (record { not_job = ground arith; not_request = ground arith }) run_analysis now dead s
          0 in
      (
        result ∙ ap (result_of retries) e,
        renamed-HasStatus R task _
            (ap (λ x. recovered_status x (settled_status ending)) e ∙ recovered-settled ending) h3,
        dead3 ∙ (λ i. dead_letters task now (failure_of (e i)) (dead_same i)),
      )

module _ (R : Redis) (settings : HitlSettings) (lock_ttl : ℕ) (task : Task) (retries now : ℕ)
    (run_analysis : R.Db → Ending × R.Db) (s : R.Db) where
  -- the store when `run_analysis` is called
  abbrev pub started : R.Db
  started =
      update_job R task.job_id JobStatus.running none none now
        (R.store (Key.job_lock task.job_id) "locked" (some lock_ttl) s)

  -- The lock is free, the task's job is there, and `run_analysis` writes neither the job nor the
  -- dead-letter queue. Then the job's status follows from how the analysis ends: done or error with
  -- a result, pending_human with one that waits for a reviewer, error after an exception or the time
  -- limit; the last two put the failure in front of the dead letters, cut to 500, and nothing
  -- else is put there; after an exception the task asks for a retry, at most twice.
  pub process_analysis_job-outcome :
      {tenant : String} {old : JobStatus}
      → is_job_locked R lock_ttl task.job_id s ≡ false
      → HasStatus R task tenant old s
      → IsUntouched R settings lock_ttl task retries now run_analysis (Key.job task.job_id)
      → IsUntouched R settings lock_ttl task retries now run_analysis Key.dlq
      → let ending = ending_of (run_analysis started).0 in
        let (result, sent, t) =
          process_analysis_job R settings lock_ttl task retries run_analysis now s in
        (result ≡ result_of retries ending)
        × HasStatus R task tenant (status_of ending) t
        × (R.peek t Key.dlq 0 ≡ dead_letters task now (failure_of ending) (R.peek s Key.dlq 0))
  process_analysis_job-outcome free h job dead =
      rw (process_free R settings lock_ttl task retries now run_analysis s free) (
        let lock = Key.job_lock task.job_id in
        let job_key = Key.job task.job_id in
        let s0 = R.store lock "locked" (some lock_ttl) s in
        let h0 =
          same-HasStatus R task s s0
            (R.peek-store_ne lock job_key "locked" (some lock_ttl) s 0 (ground arith)) h in
        let (result, h1, dead1) =
          guarded-outcome R settings lock_ttl task retries now run_analysis s0 h0 job dead in
        let t = (guarded R settings lock_ttl task retries now run_analysis s0).2 in
        (
          result,
          same-HasStatus R task t (clean_up R lock_ttl task t)
              (kept t job_key (ground arith) (ground arith) (ground arith)) h1,
          kept t Key.dlq (ground arith) (ground arith) (ground arith)
              ∙ dead1
              ∙ ap
                  (dead_letters task now (
                    failure_of (
                      ending_of
                        (run_analysis
                          (update_job R task.job_id JobStatus.running none none now s0)).0)))
                  (R.peek-store_ne lock Key.dlq "locked" (some lock_ttl) s 0 (ground arith)),
        ))
    where
      kept :
          (t : R.Db) (k : Key)
          → Key.job_lock task.job_id ≢ k
          → Key.queue_global ≢ k
          → Key.queue_tenant task.tenant_id ≢ k
          → R.peek (clean_up R lock_ttl task t) k 0 ≡ R.peek t k 0
      kept t k a b c = clean_up-IsSame R settings lock_ttl task retries now run_analysis k a b c t 0
