-- ===== src/Demo/Agreement.antt =====
-- The demo store against the jobs in Redis: what the demo store keeps of a job.
use multiagent_platform_v.Prelude.{
  Bool-cases, List, Option, Option-cases, String, [], ap, arith, eq_iff, if◌then◌else◌, inl, inr,
  ltb, none, refl, some, subst, sym, true, ℕ, ◌+◌, ◌<◌, ◌==◌, ◌∙◌, ◌∷◌, ◌≡◌, ◌≢◌, ◌≤◌,
}
use multiagent_platform_v.State.{InputData}
use multiagent_platform_v.Documents.{Job, JobResult, JobStatus}
use multiagent_platform_v.Redis.{Key, Redis}
use multiagent_platform_v.Redis.Commands.{sadded, setex}
use multiagent_platform_v.Registry.{lookup}
use multiagent_platform_v.Jobs.{create_job, get_job, job_ttl, new_job, update_job, updated_job}
use multiagent_platform_v.Demo.{
  FakeDb, FakeJob, assign, create_fake_job, fake_id, get_fake_job, update_fake_job,
}

abbrev pub view : Job → FakeJob
view job = record {
  job_id = job.job_id;
  tenant_id = job.tenant_id;
  sector = job.sector;
  input_data = job.input_data;
  status = job.status;
  result = job.result;
  failure = job.failure;
}

abbrev pub view_of : Option Job → Option FakeJob
view_of none = none
view_of (some job) = some (view job)

lookup-assign :
    {A : Type 0} (key : String) (value : A) (items : List (String × A)) (k : String)
    → lookup k (assign key value items) ≡ (if key == k then some value else lookup k items)
lookup-assign key value [] k = refl
lookup-assign key value ((j, v) ∷ items) k =
    ground (arith, eq_iff j key, eq_iff j k, eq_iff key k, lookup-assign key value items k)

-- a call to the store
pub data Call : Type 0 where
  creation : (tenant_id sector : String) → InputData → Call
  change : (job_id : String) → JobStatus → Option JobResult → Option String → Call

module _ (R : Redis) (four_digits : ℕ → String) where
  -- the same call to both stores; the demo store chooses the id
  abbrev pub call_both : Call → (now : ℕ) → FakeDb → R.Db → FakeDb × R.Db
  call_both (creation tenant_id sector input_data) now db s = (
    create_fake_job four_digits tenant_id sector input_data db,
    create_job R (fake_id four_digits db) tenant_id sector input_data now s,
  )
  call_both (change job_id status result failure) now db s = (
    update_fake_job job_id status result failure db,
    update_job R job_id status result failure now s,
  )

  -- each call after a pause
  abbrev pub call_all : List (ℕ × Call) → (now : ℕ) → FakeDb → R.Db → FakeDb × R.Db
  call_all [] now db s = (db, s)
  call_all ((pause, call) ∷ calls) now db s =
      let (db', s') = call_both call (now + pause) db (R.elapse pause s) in
      call_all calls (now + pause) db' s'

  abbrev pub total : List (ℕ × Call) → ℕ
  total [] = 0
  total ((pause, call) ∷ calls) = pause + total calls

  -- both have the same jobs, for so many seconds
  abbrev pub Agrees : (left : ℕ) → FakeDb → R.Db → Type 0
  Agrees left db s =
      (job_id : String) (d : ℕ)
      → d ≤ left
      → get_fake_job job_id db ≡ view_of (R.peek s (Key.job job_id) d)

  elapse-Agrees :
      (left pause : ℕ) (db : FakeDb) (s : R.Db)
      → Agrees (pause + left) db s
      → Agrees left db (R.elapse pause s)
  elapse-Agrees left pause db s same job_id d le =
      rw (R.peek-elapse pause s (Key.job job_id) d) (same job_id (pause + d) (omega arith))

  stored-Agrees :
      (left : ℕ) (job_id : String) (job : Job) (db db' : FakeDb) (s : R.Db)
      → left < job_ttl
      → Agrees left db s
      → db'.jobs ≡ assign job_id (view job) db.jobs
      → Agrees left db' (setex R (Key.job job_id) job_ttl job s)
  unfolding get_fake_job
  stored-Agrees left job_id job db db' s short same e k d le =
      let kept = ap (lookup k) e ∙ lookup-assign job_id (view job) db.jobs k in
      elim (Bool-cases (job_id == k)) [
        | inl own ↦
            let live : ltb d job_ttl ≡ true = ground arith in
            let found : R.peek (setex R (Key.job job_id) job_ttl job s) (Key.job k) d ≡ some job =
              subst (λ j. R.peek (setex R (Key.job job_id) job_ttl job s) (Key.job j) d ≡ some job)
                (ground (arith, eq_iff job_id k))
                (R.peek-store_self (Key.job job_id) job (some job_ttl) s d
                  ∙ ap (λ b. if b then some job else none) live) in
            kept
            ∙ ap (λ b. if b then some (view job) else lookup k db.jobs) own
            ∙ sym (ap view_of found)
        | inr other ↦
            let apart : Key.job job_id ≢ Key.job k = ground (arith, eq_iff job_id k) in
            kept
            ∙ ap (λ b. if b then some (view job) else lookup k db.jobs) other
            ∙ same k d le
            ∙ sym (
                ap view_of
                  (R.peek-store_ne (Key.job job_id) (Key.job k) job (some job_ttl) s d apart))
      ]

  create-Agrees :
      (tenant_id sector : String) (input_data : InputData) (left now : ℕ) (db : FakeDb) (s : R.Db)
      → left < job_ttl
      → Agrees left db s
      → let (db', s') = call_both (creation tenant_id sector input_data) now db s in
        Agrees left db' s'
  unfolding create_fake_job create_job new_job
  create-Agrees tenant_id sector input_data left now db s short same k d le =
      let job_id = fake_id four_digits db in
      let job = new_job job_id tenant_id sector input_data now in
      let db' = create_fake_job four_digits tenant_id sector input_data db in
      let s1 = setex R (Key.job job_id) job_ttl job s in
      let index = Key.tenant_jobs tenant_id in
      stored-Agrees left job_id job db db' s short same refl k d le
      ∙ ap view_of (
          sym (
            R.peek-expire_ne index (Key.job k) job_ttl _ d (ground arith)
            ∙ R.peek-update_ne index (Key.job k) (sadded job_id) s1 d (ground arith)))

  update-Agrees :
      (job_id : String) (status : JobStatus) (result : Option JobResult) (failure : Option String)
      (left now : ℕ) (db : FakeDb) (s : R.Db)
      → left < job_ttl
      → Agrees left db s
      → let (db', s') = call_both (change job_id status result failure) now db s in
        Agrees left db' s'
  unfolding update_fake_job update_job updated_job get_fake_job
  update-Agrees job_id status result failure left now db s short same =
      elim (Option-cases (get_job R job_id s)) [
        | inl missing ↦
            let absent : lookup job_id db.jobs ≡ none =
              same job_id 0 (omega arith) ∙ ap view_of missing in
            rw (update_job, missing) (rw (update_fake_job, absent) same)
        | inr (job, stored) ↦
            let present : lookup job_id db.jobs ≡ some (view job) =
              same job_id 0 (omega arith) ∙ ap view_of stored in
            let db' = update_fake_job job_id status result failure db in
            rw (update_job, stored)
              (stored-Agrees left job_id (updated_job status result failure now job) db db' s short
                same (rw (update_fake_job, present) refl))
      ]

  call_both-Agrees :
      (call : Call) (left now : ℕ) (db : FakeDb) (s : R.Db)
      → left < job_ttl
      → Agrees left db s
      → let (db', s') = call_both call now db s in Agrees left db' s'
  call_both-Agrees (creation tenant_id sector input_data) left now db s short same =
      create-Agrees tenant_id sector input_data left now db s short same
  call_both-Agrees (change job_id status result failure) left now db s short same =
      update-Agrees job_id status result failure left now db s short same

  -- Where the two stores have the same jobs, they have the same jobs after any calls that create and
  -- update jobs, each after a pause, within less than seven days in all: for every id, the demo
  -- store finds the view of what Redis holds, or both find nothing, until that time is over.
  pub call_all-Agrees :
      (calls : List (ℕ × Call)) (left now : ℕ) (db : FakeDb) (s : R.Db)
      → total calls + left < job_ttl
      → Agrees (total calls + left) db s
      → let (db', s') = call_all calls now db s in Agrees left db' s'
  call_all-Agrees [] left now db s short same = λ job_id d le. same job_id d (omega (arith, le))
  call_all-Agrees ((pause, call) ∷ calls) left now db s short same =
      let rest = total calls + left in
      let paused : Agrees rest db (R.elapse pause s) =
        elapse-Agrees rest pause db s (λ job_id d le. same job_id d (omega (arith, le))) in
      let (db', s') = call_both call (now + pause) db (R.elapse pause s) in
      call_all-Agrees calls left (now + pause) db' s' (omega (arith, short)) (
        call_both-Agrees call rest (now + pause) db (R.elapse pause s) (omega (arith, short))
          paused)
