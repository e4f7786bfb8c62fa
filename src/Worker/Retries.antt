-- ===== src/Worker/Retries.antt =====
-- A task whose analysis keeps failing: Celery delivers it again after each request for a retry.
use multiagent_platform_v.Jobs.{update_job}
use multiagent_platform_v.QueueControl.Counters.{decrement_queue-lasting, decrement_queue-other}
use multiagent_platform_v.QueueControl.{get_global_queue_depth}
use multiagent_platform_v.JobLocking.{is_job_locked, release_job_lock}
use multiagent_platform_v.Prelude.{
  String, ap, arith, if◌then◌else◌, ltb, none, pos, refl, some, suc, zero, ℕ, ◌+◌, ◌∙◌, ◌≡◌, ◌≤◌,
}
use multiagent_platform_v.Redis.{Key, Redis}
use multiagent_platform_v.Hitl.{HitlSettings}
use multiagent_platform_v.Documents.{JobStatus}
use multiagent_platform_v.Worker.{
  Ending, Task, TaskResult, attempt, clean_up, gave_up, max_retries, process_analysis_job, raised,
  recover, retrying, settle,
}
use multiagent_platform_v.Worker.Process.{guarded, process_free, released, released-IsSame}

-- `default_retry_delay`

abbrev pub retry_delay : ℕ
retry_delay = 30

-- whether Celery delivers the task again
abbrev pub resumed {ℓ} : {A : Type ℓ} → TaskResult → A → A → A
resumed retrying again over = again
resumed _ again over = over

module _ (R : Redis) (settings : HitlSettings) (lock_ttl : ℕ) (task : Task)
    (run_analysis : R.Db → Ending × R.Db) where
  -- a task and its retries, each after the delay; `fuel` bounds their number
  pub deliver : (fuel retries now : ℕ) → R.Db → TaskResult × R.Db
  deliver zero retries now s = (retrying, s)
  deliver (suc fuel) retries now s =
      let (result, sent, t) =
        process_analysis_job R settings lock_ttl task retries run_analysis now s in
      let again = deliver fuel (suc retries) (now + retry_delay) (R.elapse retry_delay t) in
      resumed result again (result, t)

  -- the lock is free and the global depth is `n`, from now on
  abbrev IsIdle : ℕ → R.Db → Type 0
  IsIdle n s =
      ((d : ℕ) → R.peek s (Key.job_lock task.job_id) d ≡ none)
      × ((d : ℕ) → R.peek s Key.queue_global d ≡ some (pos n))

  -- the analysis raises an exception and leaves the global depth alone
  abbrev pub IsFailing : Type 0
  IsFailing =
      (s : R.Db)
      → ((reason : String) × ((run_analysis s).0 ≡ raised reason))
        × ((d : ℕ) → R.peek (run_analysis s).1 Key.queue_global d ≡ R.peek s Key.queue_global d)

  guarded-raised :
      (retries now : ℕ) (s : R.Db)
      → IsFailing
      → (guarded R settings lock_ttl task retries now run_analysis s).0
        ≡ (if ltb retries max_retries then retrying else gave_up)
  unfolding attempt settle recover
  guarded-raised retries now s fails =
      let s1 = update_job R task.job_id JobStatus.running none none now s in
      ap (λ e. (recover R task retries now (settle R settings task now e (run_analysis s1).1)).0)
        (fails s1).0.1

  once :
      (n retries now : ℕ) (s : R.Db)
      → IsFailing
      → IsIdle (suc n) s
      → let (result, sent, t) =
          process_analysis_job R settings lock_ttl task retries run_analysis now s in
        (result ≡ (if ltb retries max_retries then retrying else gave_up)) × IsIdle n t
  unfolding is_job_locked clean_up release_job_lock
  once n retries now s fails (free, depth) =
      rw (process_free R settings lock_ttl task retries now run_analysis s (ground (arith, free 0)))
        (let s0 = R.store (Key.job_lock task.job_id) "locked" (some lock_ttl) s in
          let unlocked = released R settings lock_ttl task retries now run_analysis s in
          let kept =
            released-IsSame R settings lock_ttl task retries now run_analysis Key.queue_global
              (record { not_job = ground arith; not_request = ground arith }) (ground arith)
              (ground arith) (λ s'. (fails s').1) s in
          (
            guarded-raised retries now s0 fails,
            (
              λ d.
                  decrement_queue-other R task.tenant_id (Key.job_lock task.job_id) d unlocked
                    (ground arith) (ground arith)
                  ∙ R.peek-delete_self (Key.job_lock task.job_id) _ d,
              decrement_queue-lasting R task.tenant_id n unlocked (λ d. kept d ∙ depth d),
            ),
          ))

  elapse-IsIdle : (n delay : ℕ) (s : R.Db) → IsIdle n s → IsIdle n (R.elapse delay s)
  elapse-IsIdle n delay s (free, depth) = (
    λ d. R.peek-elapse delay s (Key.job_lock task.job_id) d ∙ free (delay + d),
    λ d. R.peek-elapse delay s Key.queue_global d ∙ depth (delay + d),
  )

  -- A job is counted once when it is queued. If its analysis fails each time, the task is delivered
  -- three times in all and then given up, and each delivery lowers the global depth by one: a
  -- depth of `n + 3` ends as `n`.
  pub deliver-lowers_thrice :
      (fuel n now : ℕ) (s : R.Db)
      → IsFailing
      → 3 ≤ fuel
      → ((d : ℕ) → R.peek s (Key.job_lock task.job_id) d ≡ none)
      → ((d : ℕ) → R.peek s Key.queue_global d ≡ some (pos (suc (suc (suc n)))))
      → ((deliver fuel 0 now s).0 ≡ gave_up)
        × (get_global_queue_depth R (deliver fuel 0 now s).1 ≡ pos n)
  unfolding deliver
  deliver-lowers_thrice zero n now s fails enough free depth = ground arith
  deliver-lowers_thrice (suc zero) n now s fails enough free depth = ground arith
  deliver-lowers_thrice (suc (suc zero)) n now s fails enough free depth = ground arith
  deliver-lowers_thrice (suc (suc (suc fuel))) n now s fails enough free depth =
      let delivered : ℕ → ℕ → R.Db → R.Db = λ retries now s.
        (process_analysis_job R settings lock_ttl task retries run_analysis now s).2 in
      let (r0, i0) = once (suc (suc n)) 0 now s fails (free, depth) in
      let t0 = delivered 0 now s in
      let s1 = R.elapse retry_delay t0 in
      let (r1, i1) =
        once (suc n) 1 (now + retry_delay) s1 fails
          (elapse-IsIdle (suc (suc n)) retry_delay t0 i0) in
      let t1 = delivered 1 (now + retry_delay) s1 in
      let s2 = R.elapse retry_delay t1 in
      let (r2, i2) =
        once n 2 (now + retry_delay + retry_delay) s2 fails
          (elapse-IsIdle (suc n) retry_delay t1 i1) in
      rw (r0, r1, r2) (refl, rw (i2.1 0) refl)
