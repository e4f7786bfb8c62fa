-- ===== src/Documents.antt =====
-- The JSON documents that the program keeps in Redis. `json.dumps` and `json.loads` are inverse on
-- them, so a key holds the document itself. Times are whole seconds unless a field says otherwise.
use multiagent_platform_v.Prelude.{ℕ, ℤ, String, Bool, Option, List}
use multiagent_platform_v.State.{InputData, SalesOutput, UniversalState}

-- core/circuit_breaker.py
pub data CircuitState : Type 0 where
  closed opened half_open : CircuitState

-- the dict of `get_state`
pub record Circuit : Type 0 where
  pub state : CircuitState
  pub failures : ℕ
  pub last_failure : Option ℕ
  pub opened_at : Option ℕ

-- core/jobs.py
pub data JobStatus : Type 0 where
  queued running pending_human done rejected error : JobStatus

-- the "hitl" entry that `resume_hitl_job` writes
pub record Resolution : Type 0 where
  pub approved : Bool
  pub reviewer : String
  pub comment : String

-- the three shapes of "result" that worker.py writes
pub data JobResult : Type 0 where
  analysis : UniversalState → JobResult
  partial : UniversalState → (request_id : String) → (decision_text : String) → JobResult
  resolved : (final_decision : Option String) → Resolution → JobResult

-- api/main.py, `outcome_data`; the accuracy in thousandths
pub record Outcome : Type 0 where
  pub actual_demand : ℤ
  pub action_taken : Bool
  pub notes : Option String
  pub accuracy : Option ℤ
  pub recorded_at : ℕ

pub record Job : Type 0 where
  pub job_id : String
  pub tenant_id : String
  pub sector : String
  pub input_data : InputData
  pub status : JobStatus
  pub created_at : ℕ
  pub updated_at : ℕ
  pub result : Option JobResult
  pub failure : Option String  -- the key "error"
  pub outcome : Option Outcome

-- the value at hitl:approval:{request_id}: the text "pending", or the verdict of a reviewer
pub data Approval : Type 0 where
  pending : Approval
  verdict : (approved : Bool) → (reviewer : String) → (comment : String) → Approval

-- the response of POST /analyze, which the idempotency layer keeps
pub record Rate : Type 0 where
  pub requests_used : ℕ
  pub requests_limit : ℕ
  pub remaining : ℕ

pub record Response : Type 0 where
  pub job_id : String
  pub queue : String
  pub rate_limit : Option Rate
  pub idempotent_replay : Bool

-- an entry of dlq:failed_jobs
pub record DeadJob : Type 0 where
  pub job_id : String
  pub tenant_id : String
  pub failure : String
  pub input_data : InputData
  pub failed_at : ℕ

-- an entry of audit:{tenant_id}
pub record AuditEntry : Type 0 where
  pub timestamp : ℕ
  pub tenant_id : String
  pub user_id : String
  pub action : String
  pub resource : String
  pub success : Bool

-- the last decision for a product: core/memory.py. `recommendation` is the sales agent's output, and
-- `none` is the empty dict; demand in units, the confidence and the accuracy in thousandths
pub record Actual : Type 0 where
  pub actual_demand : ℤ
  pub recorded_at : ℕ

pub record DecisionMemory : Type 0 where
  pub timestamp : ℕ
  pub recommendation : Option SalesOutput
  pub confidence : ℕ
  pub actual_outcome : Option Actual
  pub forecast_accuracy : Option ℤ

-- core/memory_safety.py
pub data ResetReason : Type 0 where
  manual auto_accuracy_floor manual_api : ResetReason

pub record ResetEntry : Type 0 where
  pub reset_at : ℕ
  pub reason : ResetReason
  pub tenant_id : String
  pub product_id : String

-- an entry of kpi:decisions:{tenant_id}, core/kpis.py, with the keys of `outcome` that are read: the
-- accuracy in thousandths, the latency in tenths of a second
pub record DecisionOutcome : Type 0 where
  pub forecast_accuracy : Option ℤ
  pub requires_human : Bool
  pub errors : List String
  pub urgency : Option String
  pub status : Option String
  pub latency_seconds : Option ℕ

pub record DecisionEntry : Type 0 where
  pub job_id : String
  pub timestamp : ℕ
  pub outcome : DecisionOutcome
