-- ===== src/State.antt =====
-- The shared state of one analysis: core/state.py, with the agents' outputs as core/schemas.py
-- declares them. A dict with known keys is a record; a key that may be missing is an `Option`.
use multiagent_platform_v.Prelude.{ℕ, ℤ, String, Bool, Option, none, List}

-- core/schemas.py, UrgencyLevel
pub data UrgencyLevel : Type 0 where
  low medium high : UrgencyLevel

-- the strings that sectors/supply_chain/aggregator_agent.py appends to `alerts`
pub data Alert : Type 0 where
  stock_critical stock_low reorder_packaging_now : Alert
  capacity_insufficient heat_wave_demand_surge : Alert

-- temperatures in tenths of a degree
pub record WeatherOutput : Type 0 where
  pub avg_temp : ℤ
  pub max_temp : ℤ
  pub rain_days : ℕ
  pub heat_wave : Bool
  pub location : String
  pub fallback : Bool

-- `baseline_daily` in hundredths of a unit, the two totals in units, multipliers in hundredths
pub record SalesOutput : Type 0 where
  pub baseline_daily : ℤ
  pub total_30_days : ℤ
  pub adjusted_30_days : ℤ
  pub weather_multiplier : ℕ
  pub memory_adjustment : ℕ
  pub final_multiplier : ℕ
  pub fallback : Bool

-- `daily_demand_forecast` in hundredths of a unit, days and the capacity gap in tenths
pub record ProductionOutput : Type 0 where
  pub daily_capacity : ℕ
  pub current_stock : ℤ
  pub packaging_stock : ℕ
  pub daily_demand_forecast : ℤ
  pub days_of_stock : ℤ
  pub days_of_packaging : ℤ
  pub capacity_gap : ℤ
  pub can_meet_demand : Bool
  pub reorder_needed : Bool
  pub lead_time_days : ℕ
  pub fallback : Bool

pub record AggregatedInsights : Type 0 where
  pub alerts : List Alert
  pub urgency : UrgencyLevel
  pub stock_days : Option ℤ
  pub packaging_days : Option ℤ
  pub capacity_gap : Option ℤ
  pub multiplier_applied : Option ℕ
  pub has_fallback_data : Bool

-- what `hitl_checkpoint` returns; `confidence` in thousandths, a missing "pending" is false
pub record HitlResult : Type 0 where
  pub approved : Bool
  pub confidence : ℕ
  pub requires_human : Bool
  pub pending : Bool
  pub request_id : Option String
  pub final_decision : Option String

-- the cost dict of core/llm.py: every Groq price is 0
pub record CostInfo : Type 0 where
  pub model : String
  pub fallback_used : Bool

-- the names in SUPPLY_CHAIN_TOOLS of core/tools.py
pub data Tool : Type 0 where
  weather_tool sales_tool production_tool rag_tool : Tool

pub record AgentOutputs : Type 0 where
  pub weather_agent : Option WeatherOutput
  pub sales_agent : Option SalesOutput
  pub production_agent : Option ProductionOutput
  pub tools_selected : Option (List Tool)
  pub tools_called : Option (List Tool)
  pub rag_context : Option String
  pub decision_cost : Option CostInfo
  pub decision_text : Option String
  pub hitl : Option HitlResult

-- `{}`
abbrev pub no_outputs : AgentOutputs
no_outputs = record {
  weather_agent = none;
  sales_agent = none;
  production_agent = none;
  tools_selected = none;
  tools_called = none;
  rag_context = none;
  decision_cost = none;
  decision_text = none;
  hitl = none;
}

-- the keys of `input_data` that the program reads
pub record InputData : Type 0 where
  pub location : Option String
  pub product_id : Option String
  pub webhook_url : Option String

pub data RunStatus : Type 0 where
  running done error pending_human rejected : RunStatus

pub record UniversalState : Type 0 where
  pub tenant_id : String
  pub sector : String
  pub input_data : InputData
  pub agent_outputs : AgentOutputs
  pub aggregated_insights : Option AggregatedInsights
  pub final_decision : Option String
  pub errors : List String
  pub status : RunStatus
