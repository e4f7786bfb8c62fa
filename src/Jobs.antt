-- ===== src/Jobs.antt =====
-- core/jobs.py. The new id (`uuid.uuid4()`) and the clock are arguments.
pub mod Store
pub mod Listing
pub mod Order
mod Tests
use multiagent_platform_v.Prelude.{
  List, Option, String, [], get_or, if◌then◌else◌, leb, none, some, take, ℕ, ◌∷◌,
}
use multiagent_platform_v.State.{InputData}
use multiagent_platform_v.Documents.{Job, JobStatus, JobResult}
use multiagent_platform_v.Redis.{Key, Redis}
use multiagent_platform_v.Redis.Commands.{get, sadded, setex}

-- JOB_TTL, seven days

abbrev pub job_ttl : ℕ
job_ttl = 604800

unfoldable pub new_job : (job_id tenant_id sector : String) → InputData → (now : ℕ) → Job
new_job job_id tenant_id sector input_data now = record {
  job_id = job_id;
  tenant_id = tenant_id;
  sector = sector;
  input_data = input_data;
  status = JobStatus.queued;
  created_at = now;
  updated_at = now;
  result = none;
  failure = none;
  outcome = none;
}

-- `if x is not None: job[key] = x`
abbrev pub or_keep {ℓ} : {A : Type ℓ} → Option A → Option A → Option A
or_keep none old = old
or_keep (some a) old = some a

unfoldable pub updated_job : JobStatus → Option JobResult → Option String → (now : ℕ) → Job → Job
updated_job status result error now job = record job {
  status = status;
  updated_at = now;
  result = or_keep result job.result;
  failure = or_keep error job.failure;
}

-- `jobs.sort(key=created_at, reverse=True)`: stable, the latest first
pub insert_job : Job → List Job → List Job
insert_job job [] = job ∷ []
insert_job job (j ∷ js) =
    if leb j.created_at job.created_at then job ∷ j ∷ js else j ∷ insert_job job js

pub sort_jobs : List Job → List Job
unfolding insert_job
sort_jobs [] = []
sort_jobs (j ∷ js) = insert_job j (sort_jobs js)

module _ (R : Redis) where
  -- the pipeline of SETEX, SADD and EXPIRE
  unfoldable pub create_job :
      (job_id tenant_id sector : String) → InputData → (now : ℕ) → R.Db → R.Db
  unfolding new_job
  create_job job_id tenant_id sector input_data now s =
      let job = new_job job_id tenant_id sector input_data now in
      let s1 = setex R (Key.job job_id) job_ttl job s in
      let s2 = R.update (Key.tenant_jobs tenant_id) (sadded job_id) s1 in
      R.expire (Key.tenant_jobs tenant_id) job_ttl s2

  abbrev pub get_job : String → R.Db → Option Job
  get_job job_id s = get R (Key.job job_id) s

  unfoldable pub update_job :
      String → JobStatus → Option JobResult → Option String → (now : ℕ) → R.Db → R.Db
  unfolding updated_job
  update_job job_id status result error now s = elim (get_job job_id s) [
    | none ↦ s
    | some job ↦ setex R (Key.job job_id) job_ttl (updated_job status result error now job) s
  ]

  -- the jobs of the ids that still have one
  unfoldable pub load_jobs : List String → R.Db → List Job
  load_jobs [] s = []
  load_jobs (job_id ∷ job_ids) s =
      let rest = load_jobs job_ids s in
      elim (get_job job_id s) [ none ↦ rest | some job ↦ job ∷ rest ]

  unfoldable pub list_jobs : String → (limit : ℕ) → R.Db → List Job
  unfolding sort_jobs load_jobs
  list_jobs tenant_id limit s =
      let job_ids = get_or (get R (Key.tenant_jobs tenant_id) s) [] in
      take limit (sort_jobs (load_jobs job_ids s))
