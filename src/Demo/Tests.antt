-- ===== src/Demo/Tests.antt =====
-- The demo store beside a server in memory.
use multiagent_platform_v.Prelude.{
  List, String, [], arith, eqb, if◌then◌else◌, map, none, refl, some, ℕ, ◌∷◌, ◌≡◌,
}
use multiagent_platform_v.State.{InputData}
use multiagent_platform_v.Documents.{JobStatus}
use multiagent_platform_v.Redis.{Key}
use multiagent_platform_v.Redis.Memory.{empty, memory, peek-empty}
use multiagent_platform_v.Demo.{
  FakeDb, FakeJob, create_fake_job, get_fake_job, list_fake_jobs, update_fake_job,
}
use multiagent_platform_v.Demo.Agreement.{
  Agrees, Call, call_all, call_all-Agrees, change, creation, view_of,
}

abbrev digits : ℕ → String
digits n = if eqb n 1 then "0001" else "0002"

abbrev order : InputData
order = record {
  location = some "Tunis, Tunisia";
  product_id = some "PROD-001";
  webhook_url = none;
}

abbrev empty_demo : FakeDb
empty_demo = record { job_counter = 0; jobs = [] }

-- a job that fails after a minute, and another one
abbrev calls : List (ℕ × Call)
calls =
    (0, creation "demo" "supply_chain" order)
    ∷ (60, change "job-0001" JobStatus.error none (some "no route to host"))
    ∷ (5, creation "test" "supply_chain" order)
    ∷ []

no_jobs : (left : ℕ) → Agrees memory digits left empty_demo empty
unfolding get_fake_job
no_jobs left job_id d le = rw (peek-empty (Key.job job_id) d) refl

call_all-Agrees_example :
    let (db, t) = call_all memory digits calls 100 empty_demo empty in
    get_fake_job "job-0001" db ≡ view_of (memory.peek t (Key.job "job-0001") 3600)
call_all-Agrees_example =
    call_all-Agrees memory digits calls 3600 100 empty_demo empty (omega arith) (no_jobs 3665)
      "job-0001" 3600 (omega arith)

listed :
    let (db, s) = call_all memory digits calls 100 empty_demo empty in
    map (λ (job : FakeJob). job.failure) (list_fake_jobs "demo" db) ≡ some "no route to host" ∷ []
unfolding list_fake_jobs create_fake_job update_fake_job
listed = refl
