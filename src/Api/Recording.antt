-- ===== src/Api/Recording.antt =====
-- What an outcome that is sent to POST /outcomes/{job_id} leaves.
use multiagent_platform_v.Prelude.{
  String, [], arith, format, refl, some, true, ℕ, ◌∙◌, ◌∷◌, ◌≡◌, ◌≢◌,
}
use multiagent_platform_v.Documents.{Job}
use multiagent_platform_v.Http.{respond}
use multiagent_platform_v.Redis.{Key, Redis}
use multiagent_platform_v.Redis.Commands.{setex}
use multiagent_platform_v.Jobs.{get_job, job_ttl}
use multiagent_platform_v.Rbac.{Tenant}
use multiagent_platform_v.Rbac.Hierarchy.{audit_log-other}
use multiagent_platform_v.Memory.Safety.{MemorySettings, Saving, save_actual_outcome_safe}
use multiagent_platform_v.Api.{user_of}
use multiagent_platform_v.Api.Outcomes.{
  OutcomeRequest, is_completed, outcome_of, product_in, record_completed, record_outcome,
  record_own,
}
use multiagent_platform_v.Api.Ownership.{is_own}

module _ (R : Redis) (settings : MemorySettings) (tenant : Tenant) (job_id : String)
    (body : OutcomeRequest) (now : ℕ) (s : R.Db) where
  -- the comparison with the last decision for the job's product
  abbrev pub compared : Job → Saving × R.Db
  compared job =
      save_actual_outcome_safe R tenant.tenant_id tenant.sector (product_in job) settings
        body.actual_demand now s

  -- A completed job of the tenant's own gets the outcome, with the accuracy that the comparison
  -- answers and nothing else changed; and the last decision for the product is what the comparison
  -- leaves of it.
  pub record_outcome-records :
      (job : Job)
      → get_job R job_id s ≡ some job
      → job.tenant_id ≡ tenant.tenant_id
      → is_completed job.status ≡ true
      → let (response, t) = record_outcome R settings tenant job_id body now s in
        let saving = (compared job).0 in
        let outcome = outcome_of body saving now in
        let key = Key.last_decision tenant.tenant_id tenant.sector (product_in job) in
        (response
          ≡ respond (record { product_id = product_in job; outcome = outcome; saving = saving }))
        × (get_job R job_id t ≡ some (record job { outcome = some outcome }))
        × ((d : ℕ) → R.peek t key d ≡ R.peek (compared job).1 key d)
  unfolding record_outcome record_own record_completed
  record_outcome-records job found mine completed =
      let (saving, s1) = compared job in
      let job' = record job { outcome = some (outcome_of body saving now) } in
      let key = Key.last_decision tenant.tenant_id tenant.sector (product_in job) in
      let resource = format ("job:" ∷ job_id ∷ []) in
      let s2 = setex R (Key.job job_id) job_ttl job' s1 in
      let logged = λ (k : Key) (d : ℕ) (ne : Key.audit tenant.tenant_id ≢ k).
        audit_log-other R tenant.tenant_id (user_of tenant) "record_outcome" resource true now k d
          s2 ne in
      rw (record_outcome, is_own R tenant job_id now s job found mine, completed)
        (
          refl,
          logged (Key.job job_id) 0 (ground arith)
              ∙ R.peek-store_self (Key.job job_id) job' (some job_ttl) s1 0,
          λ d.
              logged key d (ground arith)
              ∙ R.peek-store_ne (Key.job job_id) key job' (some job_ttl) s1 d (ground arith),
        )
