-- ===== src/SupplyChain/Sales.antt =====
-- sectors/supply_chain/sales_agent.py. What the ERP connector answers is an argument: the units sold
-- in thirty days, or nothing where the call raises.
use multiagent_platform_v.Prelude.{
  Bool, Option, String, false, get_or, if◌then◌else◌, ltb, none, pos, round_ℤ, scale_ℤ, some, true,
  ℕ, ℤ,
}
use multiagent_platform_v.State.{SalesOutput, UniversalState, WeatherOutput}

-- WEATHER_MULTIPLIERS, in hundredths

unfoldable pub weather_multiplier_of : Option WeatherOutput → ℕ
weather_multiplier_of none = 100
weather_multiplier_of (some weather) =
    if weather.heat_wave then 140 else if ltb 10 weather.rain_days then 85 else 100

-- `product_id` defaults to "DEFAULT"
abbrev pub product_of : UniversalState → String
product_of state = get_or state.input_data.product_id "DEFAULT"

-- the dict of both branches
unfoldable pub sales_output : (base_30d : ℤ) → (multiplier : ℕ) → (fallback : Bool) → SalesOutput
sales_output base_30d multiplier fallback = record {
  baseline_daily = round_ℤ (scale_ℤ 100 base_30d) (pos 30);
  total_30_days = base_30d;
  adjusted_30_days = round_ℤ (scale_ℤ multiplier base_30d) (pos 100);
  weather_multiplier = multiplier;
  memory_adjustment = 100;
  final_multiplier = multiplier;
  fallback = fallback;
}

-- 900 units where the ERP is not reached
unfoldable pub sales_of : Option ℤ → (multiplier : ℕ) → SalesOutput
unfolding sales_output
sales_of none multiplier = sales_output (pos 900) multiplier true
sales_of (some qty_sold_30d) multiplier = sales_output qty_sold_30d multiplier false

unfoldable pub run_sales_agent :
    (get_sales_last_30_days : String → Option ℤ) → UniversalState → UniversalState
unfolding sales_of weather_multiplier_of
run_sales_agent get_sales_last_30_days state =
    let multiplier = weather_multiplier_of state.agent_outputs.weather_agent in
    let output = sales_of (get_sales_last_30_days (product_of state)) multiplier in
    record state { agent_outputs = record state.agent_outputs { sales_agent = some output } }
