-- ===== src/Api/Ownership.antt =====
-- Whose jobs an endpoint shows and changes, and what a retry by hand leaves.
use multiagent_platform_v.Prelude.{
  Bool, List, Option, String, false, [], ap, arith, eq_iff, format, get_or, none, pos, refl, some,
  sym, true, ℕ, ◌∙◌, ◌∷◌, ◌≡◌, ◌≢◌,
}
use multiagent_platform_v.Documents.{Job, JobStatus}
use multiagent_platform_v.Memory.Safety.{MemorySettings}
use multiagent_platform_v.Api.Outcomes.{OutcomeRequest, record_outcome, record_own}
use multiagent_platform_v.Http.{Http, http_error, respond}
use multiagent_platform_v.Jobs.Store.{update_job-other}
use multiagent_platform_v.Rbac.Hierarchy.{audit_log-other}
use multiagent_platform_v.Rbac.{Tenant, has_permission}
use multiagent_platform_v.Redis.{Key, Redis}
use multiagent_platform_v.QueueControl.{get_global_queue_depth, get_tenant_queue_depth}
use multiagent_platform_v.Jobs.{get_job, job_ttl, update_job, updated_job}
use multiagent_platform_v.Worker.{Message, analyse}
use multiagent_platform_v.Api.{get_job_status, own, requeue, retry_job, retry_own, user_of}

module _ (R : Redis) (tenant : Tenant) (job_id : String) (now : ℕ) (s : R.Db) where
  not_own :
      (job : Job)
      → get_job R job_id s ≡ some job
      → job.tenant_id ≢ tenant.tenant_id
      → own R tenant.tenant_id (get_job R job_id s) ≡ none
  not_own job found foreign = ground (arith, found, foreign, eq_iff job.tenant_id tenant.tenant_id)

  pub is_own :
      (job : Job)
      → get_job R job_id s ≡ some job
      → job.tenant_id ≡ tenant.tenant_id
      → own R tenant.tenant_id (get_job R job_id s) ≡ some job
  is_own job found mine = ground (arith, found, mine, eq_iff job.tenant_id tenant.tenant_id)

  -- how a retry of a job that is not the tenant's is answered, by the permission
  abbrev refused_by : Option Bool → R.Db → Http String × List Message × R.Db
  refused_by none t = (http_error 500, [], t)
  refused_by (some false) t = (http_error 403, [], t)
  refused_by (some true) t = (http_error 404, [], t)

  by_permission :
      (may : Option Bool) (s' : R.Db) → refused_by may s ≡ ((refused_by may s').0, [], s)
  by_permission none s' = refl
  by_permission (some false) s' = refl
  by_permission (some true) s' = refl

  retry_job-refused :
      (t : R.Db)
      → own R tenant.tenant_id (get_job R job_id t) ≡ none
      → retry_job R tenant job_id now t ≡ refused_by (has_permission tenant "retry_jobs") t
  unfolding retry_job retry_own
  retry_job-refused t missing =
      by (has_permission tenant "retry_jobs") (own R tenant.tenant_id (get_job R job_id t)) missing
    where
      by :
          (may : Option Bool) (job : Option Job)
          → job ≡ none
          → ◌≡◌ {A = Http String × List Message × R.Db}
              (elim may [
                | none ↦ (http_error 500, [], t)
                | some false ↦ (http_error 403, [], t)
                | some true ↦ retry_own R tenant job job_id now t
              ])
              (refused_by may t)
      by none job h = refl
      by (some false) job h = refl
      by (some true) job h = rw h refl

  retry_own-none :
      (s' : R.Db)
      → own R tenant.tenant_id (get_job R job_id s) ≡ none
      → own R tenant.tenant_id (get_job R job_id s') ≡ none
      → retry_job R tenant job_id now s ≡ ((retry_job R tenant job_id now s').0, [], s)
  retry_own-none s' here there =
      let may = has_permission tenant "retry_jobs" in
      retry_job-refused s here
      ∙ by_permission may s'
      ∙ ap (λ r. (r.0, [], s)) (sym (retry_job-refused s' there))

  -- At the endpoints that show a job, record its outcome and retry it, a tenant of whatever role
  -- cannot tell the job of another tenant from one that does not exist: `s` has the other tenant's
  -- job, `s'` is any server without it, and the answers are the same. Nothing is changed or sent.
  pub foreign_job-not_found :
      (job : Job) (settings : MemorySettings) (body : OutcomeRequest) (s' : R.Db)
      → get_job R job_id s ≡ some job
      → job.tenant_id ≢ tenant.tenant_id
      → get_job R job_id s' ≡ none
      → (get_job_status R tenant job_id s ≡ get_job_status R tenant job_id s')
        × (record_outcome R settings tenant job_id body now s
            ≡ ((record_outcome R settings tenant job_id body now s').0, s))
        × (retry_job R tenant job_id now s ≡ ((retry_job R tenant job_id now s').0, [], s))
  unfolding get_job_status record_outcome record_own
  foreign_job-not_found job settings body s' found foreign missing =
      let here = not_own job found foreign in
      let there : own R tenant.tenant_id (get_job R job_id s') ≡ none =
        ap (own R tenant.tenant_id) missing in
      (
        rw (get_job_status, here, get_job_status, there) refl,
        rw (record_outcome, here, record_outcome, there) refl,
        retry_own-none s' here there,
      )

  requeued :
      (job : Job)
      → get_job R job_id s ≡ some job
      → job.tenant_id ≡ tenant.tenant_id
      → job.status ≡ JobStatus.error
      → has_permission tenant "retry_jobs" ≡ some true
      → retry_job R tenant job_id now s ≡ requeue R tenant job job_id now s
  unfolding retry_job retry_own
  requeued job found mine failed may = rw (retry_job, may, is_own job found mine, failed) refl

  stored :
      (job : Job)
      → get_job R job_id s ≡ some job
      → update_job R job_id JobStatus.queued none none now s
        ≡ R.store
            (Key.job job_id)
            (record job { status = JobStatus.queued; updated_at = now })
            (some job_ttl)
            s
  unfolding update_job updated_job
  stored job found = rw (update_job, found) refl

  after_requeue :
      (job : Job) (k : Key)
      → Key.audit tenant.tenant_id ≢ k
      → R.peek (requeue R tenant job job_id now s).2 k 0
        ≡ R.peek (update_job R job_id JobStatus.queued none none now s) k 0
  unfolding requeue
  after_requeue job k ne =
      audit_log-other R tenant.tenant_id (user_of tenant) "retry_job"
        (format ("job:" ∷ job_id ∷ [])) true now k 0
        (update_job R job_id JobStatus.queued none none now s) ne

  kept :
      (job : Job) (k : Key)
      → Key.audit tenant.tenant_id ≢ k
      → Key.job job_id ≢ k
      → R.peek (requeue R tenant job job_id now s).2 k 0 ≡ R.peek s k 0
  kept job k not_log not_job =
      after_requeue job k not_log
      ∙ update_job-other R job_id JobStatus.queued none none now k 0 s not_job

  -- A tenant who may retry jobs retries its own failed job: the job is queued again, its old error
  -- text kept, and one task for it is sent to the heavy queue, whatever the sector; but neither
  -- queue depth is raised.
  pub retry_job-uncounted :
      (job : Job)
      → get_job R job_id s ≡ some job
      → job.tenant_id ≡ tenant.tenant_id
      → job.status ≡ JobStatus.error
      → has_permission tenant "retry_jobs" ≡ some true
      → let (response, sent, t) = retry_job R tenant job_id now s in
        (response ≡ respond "requeued")
        × (sent
            ≡ analyse
                (record {
                  job_id = job_id;
                  tenant_id = tenant.tenant_id;
                  sector = tenant.sector;
                  input_data = job.input_data;
                })
                "heavy"
              ∷ [])
        × (get_job R job_id t ≡ some (record job { status = JobStatus.queued; updated_at = now }))
        × (get_global_queue_depth R t ≡ get_global_queue_depth R s)
        × (get_tenant_queue_depth R tenant.tenant_id t
            ≡ get_tenant_queue_depth R tenant.tenant_id s)
  unfolding requeue
  retry_job-uncounted job found mine failed may =
      let job' = record job { status = JobStatus.queued; updated_at = now } in
      rw (requeued job found mine failed may) (
        refl,
        refl,
        after_requeue job (Key.job job_id) (ground arith)
            ∙ ap (λ u. R.peek u (Key.job job_id) 0) (stored job found)
            ∙ R.peek-store_self (Key.job job_id) job' (some job_ttl) s 0,
        ap (λ o. get_or o (pos 0)) (kept job Key.queue_global (ground arith) (ground arith)),
        ap (λ o. get_or o (pos 0))
            (kept job (Key.queue_tenant tenant.tenant_id) (ground arith) (ground arith)),
      )
