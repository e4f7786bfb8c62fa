-- ===== src/Worker/Process.antt =====
-- The lock, the counters, the job and the dead-letter queue after `process_analysis_job`.
use multiagent_platform_v.Prelude.{
  Bool-cases, List, [], ap, arith, false, get_or, inl, inr, none, pos, refl, some, true, ℕ, ◌∙◌,
  ◌≡◌, ◌≢◌, ◌⊎◌,
}
use multiagent_platform_v.Redis.{Key, Redis}
use multiagent_platform_v.Hitl.{HitlSettings}
use multiagent_platform_v.JobLocking.{acquire_job_lock, is_job_locked, release_job_lock}
use multiagent_platform_v.QueueControl.{
  decrement_queue, get_global_queue_depth, get_tenant_queue_depth,
}
use multiagent_platform_v.QueueControl.Counters.{
  decrement_queue-other, decrement_queue_depths, lowered,
}
use multiagent_platform_v.Worker.{
  Ending, Message, Task, TaskResult, attempt, clean_up, process_analysis_job, recover, skipped,
}
use multiagent_platform_v.Worker.Frame.{IsOther, IsSame, recover-attempt-IsSame}

module _ (R : Redis) (settings : HitlSettings) (lock_ttl : ℕ) (task : Task) (retries now : ℕ)
    (run_analysis : R.Db → Ending × R.Db) where
  abbrev pub processed : R.Db → TaskResult × List Message × R.Db
  processed s = process_analysis_job R settings lock_ttl task retries run_analysis now s

  -- the part that the lock guards
  abbrev pub guarded : R.Db → TaskResult × List Message × R.Db
  guarded s = recover R task retries now (attempt R settings task run_analysis now s)

  pub process_free :
      (s : R.Db)
      → is_job_locked R lock_ttl task.job_id s ≡ false
      → processed s ≡ (
          let r = guarded (R.store (Key.job_lock task.job_id) "locked" (some lock_ttl) s) in
          (r.0, r.1, clean_up R lock_ttl task r.2))
  unfolding process_analysis_job acquire_job_lock is_job_locked
  process_free s h = ground arith

  pub process_held :
      (s : R.Db) → is_job_locked R lock_ttl task.job_id s ≡ true → processed s ≡ (skipped, [], s)
  unfolding process_analysis_job acquire_job_lock is_job_locked
  process_held s h = ground arith

  -- `run_analysis` leaves the key alone
  abbrev pub IsUntouched : Key → Type 0
  IsUntouched k = (s : R.Db) → IsSame R settings task k s (run_analysis s).1

  guarded-IsSame :
      (k : Key)
      → IsOther R settings task k
      → Key.dlq ≢ k
      → IsUntouched k
      → (s : R.Db) → IsSame R settings task k s (guarded s).2
  guarded-IsSame k other not_dead same s =
      recover-attempt-IsSame R settings task k other not_dead retries now run_analysis same s

  -- the store after the guarded part, without the lock
  abbrev pub released : R.Db → R.Db
  released s =
      release_job_lock R lock_ttl task.job_id
        (guarded (R.store (Key.job_lock task.job_id) "locked" (some lock_ttl) s)).2

  pub released-IsSame :
      (k : Key)
      → IsOther R settings task k
      → Key.dlq ≢ k
      → Key.job_lock task.job_id ≢ k
      → IsUntouched k
      → (s : R.Db) → IsSame R settings task k s (released s)
  unfolding release_job_lock
  released-IsSame k other not_dead not_lock same s d =
      let s1 = R.store (Key.job_lock task.job_id) "locked" (some lock_ttl) s in
      R.peek-delete_ne (Key.job_lock task.job_id) k (guarded s1).2 d not_lock
      ∙ guarded-IsSame k other not_dead same s1 d
      ∙ R.peek-store_ne (Key.job_lock task.job_id) k "locked" (some lock_ttl) s d not_lock

  cleaned_up :
      (s : R.Db)
      → IsUntouched Key.queue_global
      → IsUntouched (Key.queue_tenant task.tenant_id)
      → let t = decrement_queue R task.tenant_id (released s) in
        ((d : ℕ) → R.peek t (Key.job_lock task.job_id) d ≡ none)
        × (get_global_queue_depth R t ≡ lowered (get_global_queue_depth R s))
        × (get_tenant_queue_depth R task.tenant_id t
            ≡ lowered (get_tenant_queue_depth R task.tenant_id s))
  unfolding release_job_lock
  cleaned_up s global tenant =
      let lock = Key.job_lock task.job_id in
      let key = Key.queue_tenant task.tenant_id in
      let depths = decrement_queue_depths R task.tenant_id (released s) in
      (
        λ d.
            decrement_queue-other R task.tenant_id lock d (released s) (ground arith) (ground arith)
            ∙ R.peek-delete_self lock _ d,
        depths.0
            ∙ ap (λ o. lowered (get_or o (pos 0)))
                (released-IsSame Key.queue_global
                  (record { not_job = ground arith; not_request = ground arith }) (ground arith)
                  (ground arith) global s 0),
        depths.1
            ∙ ap (λ o. lowered (get_or o (pos 0)))
                (released-IsSame key (record { not_job = ground arith; not_request = ground arith })
                  (ground arith) (ground arith) tenant s 0),
      )

  pub clean_up-IsSame :
      (k : Key)
      → Key.job_lock task.job_id ≢ k
      → Key.queue_global ≢ k
      → Key.queue_tenant task.tenant_id ≢ k
      → (s : R.Db) → IsSame R settings task k s (clean_up R lock_ttl task s)
  unfolding clean_up release_job_lock
  clean_up-IsSame k not_lock not_global not_tenant s d =
      decrement_queue-other R task.tenant_id k d _ not_global not_tenant
      ∙ R.peek-delete_ne (Key.job_lock task.job_id) k s d not_lock

  -- the worker got the lock: it has released it, and has lowered the two depths once
  abbrev pub IsReleased : (s t : R.Db) → Type 0
  IsReleased s t =
      ((d : ℕ) → R.peek t (Key.job_lock task.job_id) d ≡ none)
      × (get_global_queue_depth R t ≡ lowered (get_global_queue_depth R s))
      × (get_tenant_queue_depth R task.tenant_id t
          ≡ lowered (get_tenant_queue_depth R task.tenant_id s))

  pub process_free-IsReleased :
      (s : R.Db)
      → IsUntouched Key.queue_global
      → IsUntouched (Key.queue_tenant task.tenant_id)
      → is_job_locked R lock_ttl task.job_id s ≡ false
      → let (result, sent, t) = processed s in IsReleased s t
  unfolding clean_up
  process_free-IsReleased s global tenant free =
      rw (process_free s free, clean_up) (cleaned_up s global tenant)

  -- Whatever `run_analysis` returns or raises, as long as it leaves the two depths alone: a worker
  -- that finds the job locked skips it, changes nothing and sends nothing; and one that does not has
  -- released the lock in the end and lowered the two depths once, those of all jobs and of the tenant.
  pub process_analysis_job-cleans_up :
      (s : R.Db)
      → IsUntouched Key.queue_global
      → IsUntouched (Key.queue_tenant task.tenant_id)
      → let (result, sent, t) = processed s in
        let locked = is_job_locked R lock_ttl task.job_id s in
        ((locked ≡ true) × (result ≡ skipped) × (sent ≡ []) × (t ≡ s))
        ⊎ ((locked ≡ false) × IsReleased s t)
  process_analysis_job-cleans_up s global tenant =
      elim (Bool-cases (is_job_locked R lock_ttl task.job_id s)) [
        | inl held ↦ inl (rw (process_held s held) (held, refl, refl, refl))
        | inr free ↦ inr (free, process_free-IsReleased s global tenant free)
      ]
