-- ===== src/Demo.antt =====
-- demo/fake_db.py: the tenants and the jobs of the demo mode, in the memory of the process. The text
-- of a number with at least four digits (`:04d`) is an argument. The random sales history is not
-- modelled.
use multiagent_platform_v.Prelude.{
  Bool, List, Option, String, [], format, get_or, if◌then◌else◌, keep, map, none, pos, some, true,
  ℕ, ◌+◌, ◌==◌, ◌∷◌,
}
use multiagent_platform_v.State.{InputData}
use multiagent_platform_v.Documents.{JobResult, JobStatus}
use multiagent_platform_v.Registry.{lookup}
use multiagent_platform_v.Jobs.{or_keep}
use multiagent_platform_v.Connectors.{ProductionConfig}
pub mod Agreement
mod Tests

-- the configuration of a tenant is not read

pub record FakeTenant : Type 0 where
  pub tenant_id : String
  pub sector : String
  pub plan : String
  pub active : Bool
  pub permissions : List String

-- FAKE_TENANTS
abbrev pub fake_tenants : List (String × FakeTenant)
fake_tenants =
    (
      "demo-key-001",
      record {
        tenant_id = "demo";
        sector = "supply_chain";
        plan = "enterprise";
        active = true;
        permissions =
            "analyze" ∷ "view_jobs" ∷ "retry_jobs" ∷ "view_audit_logs" ∷ "manage_secrets" ∷ [];
      },
    )
    ∷ (
      "test-key-002",
      record {
        tenant_id = "test";
        sector = "supply_chain";
        plan = "starter";
        active = true;
        permissions = "analyze" ∷ "view_jobs" ∷ [];
      },
    )
    ∷ []

unfoldable pub get_fake_tenant : (api_key : String) → Option FakeTenant
get_fake_tenant api_key = lookup api_key fake_tenants

abbrev pub config :
    (daily_capacity current_stock packaging_stock supplier_lead_time : ℕ) → ProductionConfig
config daily_capacity current_stock packaging_stock supplier_lead_time = record {
  daily_capacity = pos daily_capacity;
  current_stock = pos current_stock;
  packaging_stock = pos packaging_stock;
  supplier_lead_time = pos supplier_lead_time;
}

unfoldable pub generate_production_config : (product_id : String) → ProductionConfig
generate_production_config product_id =
    get_or
      (lookup product_id (
        ("PROD-001", config 1500 18000 12000 5)
        ∷ ("PROD-002", config 1000 8000 6000 7)
        ∷ ("PROD-003", config 2500 35000 28000 3)
        ∷ []))
      (config 1200 15000 10000 5)

pub record FakeJob : Type 0 where
  pub job_id : String
  pub tenant_id : String
  pub sector : String
  pub input_data : InputData
  pub status : JobStatus
  pub result : Option JobResult
  pub failure : Option String  -- the key "error"

-- `_job_counter` and `_jobs`, a dict in the order of its keys
pub record FakeDb : Type 0 where
  pub job_counter : ℕ
  pub jobs : List (String × FakeJob)

-- `d[key] = value`
abbrev pub assign {ℓ} : {A : Type ℓ} → String → A → List (String × A) → List (String × A)
assign key value [] = (key, value) ∷ []
assign key value ((k, v) ∷ items) =
    if k == key then (k, value) ∷ items else (k, v) ∷ assign key value items

abbrev pub fake_job : (job_id tenant_id sector : String) → InputData → FakeJob
fake_job job_id tenant_id sector input_data = record {
  job_id = job_id;
  tenant_id = tenant_id;
  sector = sector;
  input_data = input_data;
  status = JobStatus.queued;
  result = none;
  failure = none;
}

abbrev pub fake_id : (four_digits : ℕ → String) → FakeDb → String
fake_id four_digits db = format ("job-" ∷ four_digits (db.job_counter + 1) ∷ [])

-- the new store; the id is `fake_id`
unfoldable pub create_fake_job :
    (four_digits : ℕ → String) → (tenant_id sector : String) → InputData → FakeDb → FakeDb
create_fake_job four_digits tenant_id sector input_data db =
    let job_id = fake_id four_digits db in
    record {
      job_counter = db.job_counter + 1;
      jobs = assign job_id (fake_job job_id tenant_id sector input_data) db.jobs;
    }

unfoldable pub get_fake_job : (job_id : String) → FakeDb → Option FakeJob
get_fake_job job_id db = lookup job_id db.jobs

abbrev pub updated_fake : JobStatus → Option JobResult → Option String → FakeJob → FakeJob
updated_fake status result failure job = record job {
  status = status;
  result = or_keep result job.result;
  failure = or_keep failure job.failure;
}

-- a job that is in the dict changes in its place
unfoldable pub update_fake_job :
    (job_id : String) → JobStatus → Option JobResult → Option String → FakeDb → FakeDb
update_fake_job job_id status result failure db = elim (lookup job_id db.jobs) [
  | none ↦ db
  | some job ↦ record db { jobs = assign job_id (updated_fake status result failure job) db.jobs }
]

unfoldable pub list_fake_jobs : (tenant_id : String) → FakeDb → List FakeJob
list_fake_jobs tenant_id db =
    keep (λ (job : FakeJob). job.tenant_id == tenant_id)
      (map (λ (p : String × FakeJob). p.1) db.jobs)
