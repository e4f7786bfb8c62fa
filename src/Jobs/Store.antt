-- ===== src/Jobs/Store.antt =====
-- A job's document under the operations that write it.
use multiagent_platform_v.Prelude.{
  Bool-cases, List, Option, Option-cases, String, [], arith, eq_iff, get_or, if◌then◌else◌, inl,
  inr, none, some, true, ℕ, ◌+◌, ◌<◌, ◌==◌, ◌≡◌, ◌≢◌,
}
use multiagent_platform_v.State.{InputData}
use multiagent_platform_v.Documents.{JobResult, JobStatus}
use multiagent_platform_v.Redis.{Key, Redis}
use multiagent_platform_v.Redis.Commands.{sadded, contains}
use multiagent_platform_v.Jobs.{create_job, get_job, job_ttl, new_job, update_job, updated_job}

-- `if raw`: the update where there is a document

abbrev pub mapped {ℓ} : {A : Type ℓ} → (A → A) → Option A → Option A
mapped f none = none
mapped f (some a) = some (f a)

contains-sadded : (id : String) (o : Option (List String)) → contains id (sadded id o) ≡ true
contains-sadded id none = ground (arith, eq_iff id id)
contains-sadded id (some l) = elim (Bool-cases (contains id l)) [
  | inl old ↦ rw old old
  | inr new ↦ rw new (ground (arith, eq_iff id id))
]

module _ (R : Redis) where
  module _ (job_id tenant_id sector : String) (input_data : InputData) (now : ℕ) (s : R.Db) where
    -- A new job is found under its id, queued, with no result and no error, for seven days; and its
    -- id is then in the tenant's set.
    pub get_job-create_job :
        (elapsed : ℕ)
        → elapsed < job_ttl
        → let s' = R.elapse elapsed (create_job R job_id tenant_id sector input_data now s) in
          (get_job R job_id s' ≡ some (new_job job_id tenant_id sector input_data now))
          × (contains job_id (get_or (R.peek s' (Key.tenant_jobs tenant_id) 0) []) ≡ true)
    unfolding create_job
    get_job-create_job elapsed alive =
        let job = new_job job_id tenant_id sector input_data now in
        let key = Key.job job_id in
        let ids = Key.tenant_jobs tenant_id in
        let s1 = R.store key job (some job_ttl) s in
        let s2 = R.update ids (sadded job_id) s1 in
        let s3 = R.expire ids job_ttl s2 in
        ground (
          arith,
          R.peek-elapse elapsed s3 key 0,
          R.peek-elapse elapsed s3 ids 0,
          R.peek-expire_ne ids key job_ttl s2 (elapsed + 0),
          R.peek-update_ne ids key (sadded job_id) s1 (elapsed + 0),
          R.peek-store_self key job (some job_ttl) s (elapsed + 0),
          R.peek-expire_self ids job_ttl s2 (elapsed + 0),
          R.peek-update_self ids (sadded job_id) s1 0,
          contains-sadded job_id (R.peek s1 ids 0),
        )

  module _ (job_id : String) (status : JobStatus) (result : Option JobResult)
      (reason : Option String) (now : ℕ) where
    -- `update_job` sets the status and the time of its job, and the result and the error where it
    -- is given them; it creates nothing where there is no job, and changes no other job.
    pub get_job-update_job :
        (other : String) (s : R.Db)
        → get_job R other (update_job R job_id status result reason now s) ≡ (
            if job_id == other
            then mapped (updated_job status result reason now) (get_job R job_id s)
            else get_job R other s)
    unfolding update_job
    get_job-update_job other s = elim (Option-cases (get_job R job_id s)) [
      | inl absent ↦ ground (arith, eq_iff job_id other)
      | inr (job, found) ↦
          let job' = updated_job status result reason now job in
          ground (
            arith,
            eq_iff job_id other,
            R.peek-store_self (Key.job job_id) job' (some job_ttl) s 0,
            R.peek-store_ne (Key.job job_id) (Key.job other) job' (some job_ttl) s 0,
          )
    ]

    -- no key but the job's is written
    pub update_job-other :
        (k : Key) (d : ℕ) (s : R.Db)
        → Key.job job_id ≢ k
        → R.peek (update_job R job_id status result reason now s) k d ≡ R.peek s k d
    unfolding update_job
    update_job-other k d s ne = elim (Option-cases (get_job R job_id s)) [
      | inl absent ↦ rw (update_job, absent)
      | inr (job, found) ↦ rw (update_job, found) (R.peek-store_ne _ _ _ _ _ _ ne)
    ]
