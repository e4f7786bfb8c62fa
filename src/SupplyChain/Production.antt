-- ===== src/SupplyChain/Production.antt =====
-- sectors/supply_chain/production_agent.py. What the ERP connector answers is an argument: the units
-- in stock, or nothing where one of the two calls raises.
use multiagent_platform_v.Prelude.{
  Bool, Option, String, eqb, false, if◌then◌else◌, leb_ℤ, ltb_ℤ, minus_ℤ, negsuc, none, pos,
  round_ℤ, scale_ℤ, some, true, ℕ, ℤ, ◌*◌,
}
use multiagent_platform_v.State.{ProductionOutput, SalesOutput, UniversalState}
use multiagent_platform_v.SupplyChain.Sales.{product_of}

-- DAILY_CAPACITY, PACKAGING_STOCK, LEAD_TIME_DAYS

abbrev pub daily_capacity : ℕ
daily_capacity = 150

abbrev pub packaging_stock : ℕ
packaging_stock = 5000

abbrev pub lead_time_days : ℕ
lead_time_days = 5

-- `sales.get("avg_daily", 30.0) or 30.0`, in hundredths; "avg_daily" is the baseline
unfoldable pub daily_demand_of : Option SalesOutput → ℤ
daily_demand_of none = pos 3000
daily_demand_of (some sales) = elim sales.baseline_daily [
  | pos n ↦ if eqb n 0 then pos 3000 else pos n
  | negsuc n ↦ negsuc n
]

-- the dict of both branches; days in tenths
unfoldable pub production_output : (stock daily_demand : ℤ) → (fallback : Bool) → ProductionOutput
production_output stock daily_demand fallback =
    let days_of_packaging = round_ℤ (pos (packaging_stock * 1000)) daily_demand in
    record {
      daily_capacity = daily_capacity;
      current_stock = stock;
      packaging_stock = packaging_stock;
      daily_demand_forecast = daily_demand;
      days_of_stock = round_ℤ (scale_ℤ 1000 stock) daily_demand;
      days_of_packaging = days_of_packaging;
      capacity_gap = round_ℤ (minus_ℤ (daily_capacity * 100) daily_demand) (pos 10);
      can_meet_demand = leb_ℤ daily_demand (pos (daily_capacity * 100));
      reorder_needed = ltb_ℤ days_of_packaging (pos (lead_time_days * 10));
      lead_time_days = lead_time_days;
      fallback = fallback;
    }

-- 1200 units where the ERP is not reached
unfoldable pub production_of : Option ℤ → (daily_demand : ℤ) → ProductionOutput
unfolding production_output
production_of none daily_demand = production_output (pos 1200) daily_demand true
production_of (some actual_qty) daily_demand = production_output actual_qty daily_demand false

unfoldable pub run_production_agent :
    (get_stock : String → Option ℤ) → UniversalState → UniversalState
unfolding production_of daily_demand_of
run_production_agent get_stock state =
    let daily_demand = daily_demand_of state.agent_outputs.sales_agent in
    let output = production_of (get_stock (product_of state)) daily_demand in
    record state { agent_outputs = record state.agent_outputs { production_agent = some output } }
