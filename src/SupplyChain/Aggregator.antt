-- ===== src/SupplyChain/Aggregator.antt =====
-- sectors/supply_chain/aggregator_agent.py. The two summaries, which are for display, are left out.
use multiagent_platform_v.Prelude.{
  Bool, List, Option, [], false, get_or, if◌then◌else◌, ltb_ℤ, none, not, pos, some, true, ℤ, ◌++◌,
  ◌||◌, ◌∷◌,
}
use multiagent_platform_v.State.{
  AgentOutputs, AggregatedInsights, Alert, ProductionOutput, SalesOutput, UniversalState,
  UrgencyLevel, WeatherOutput, low, medium, high, stock_critical, stock_low, reorder_packaging_now,
  capacity_insufficient, heat_wave_demand_surge,
}

-- `dict.get(key)` on the output of an agent that may be missing

abbrev pub field {ℓ} : {A B : Type ℓ} → (A → B) → Option A → Option B
field f none = none
field f (some a) = some (f a)

-- `production.get("days_of_stock", 99)`, in tenths
abbrev pub days_of_stock : Option ProductionOutput → ℤ
days_of_stock production = get_or (field (λ p. p.days_of_stock) production) (pos 990)

abbrev pub is_critical : Option ProductionOutput → Bool
is_critical production = ltb_ℤ (days_of_stock production) (pos 50)

abbrev pub is_low : Option ProductionOutput → Bool
is_low production = ltb_ℤ (days_of_stock production) (pos 100)

abbrev pub needs_packaging : Option ProductionOutput → Bool
needs_packaging production = get_or (field (λ p. p.reorder_needed) production) false

abbrev pub is_insufficient : Option ProductionOutput → Bool
is_insufficient production = not (get_or (field (λ p. p.can_meet_demand) production) true)

abbrev pub is_heat_wave : Option WeatherOutput → Bool
is_heat_wave weather = get_or (field (λ w. w.heat_wave) weather) false

-- the alerts so far, and the urgency
abbrev pub Raised : Type 0
Raised = List Alert × UrgencyLevel

-- `alerts.append(alert); urgency = level`
abbrev pub raise_alert : Alert → UrgencyLevel → Raised → Raised
raise_alert alert level (alerts, urgency) = (alerts ++ alert ∷ [], level)

unfoldable pub check_stock : Option ProductionOutput → Raised → Raised
check_stock production r =
    if is_critical production
    then raise_alert stock_critical high r
    else if is_low production
    then raise_alert stock_low medium r
    else r

unfoldable pub check_packaging : Option ProductionOutput → Raised → Raised
check_packaging production r =
    if needs_packaging production then raise_alert reorder_packaging_now high r else r

unfoldable pub check_capacity : Option ProductionOutput → Raised → Raised
check_capacity production r =
    if is_insufficient production then raise_alert capacity_insufficient high r else r

unfoldable pub check_heat : Option WeatherOutput → Raised → Raised
check_heat weather (alerts, urgency) =
    (if is_heat_wave weather then alerts ++ heat_wave_demand_surge ∷ [] else alerts, urgency)

unfoldable pub raised_alerts : Option WeatherOutput → Option ProductionOutput → Raised
unfolding check_stock check_packaging check_capacity check_heat
raised_alerts weather production =
    check_heat weather
      (check_capacity production (check_packaging production (check_stock production ([], low))))

unfoldable pub has_fallback :
    Option WeatherOutput → Option SalesOutput → Option ProductionOutput → Bool
has_fallback weather sales production =
    get_or (field (λ w. w.fallback) weather) false
    || get_or (field (λ s. s.fallback) sales) false
    || get_or (field (λ p. p.fallback) production) false

unfoldable pub insights_of : AgentOutputs → AggregatedInsights
unfolding raised_alerts has_fallback
insights_of outputs =
    let weather = outputs.weather_agent in
    let sales = outputs.sales_agent in
    let production = outputs.production_agent in
    let (alerts, urgency) = raised_alerts weather production in
    record {
      alerts = alerts;
      urgency = urgency;
      stock_days = field (λ p. p.days_of_stock) production;
      packaging_days = field (λ p. p.days_of_packaging) production;
      capacity_gap = field (λ p. p.capacity_gap) production;
      multiplier_applied = field (λ s. s.weather_multiplier) sales;
      has_fallback_data = has_fallback weather sales production;
    }

unfoldable pub aggregate : UniversalState → UniversalState
unfolding insights_of
aggregate state = record state { aggregated_insights = some (insights_of state.agent_outputs) }
