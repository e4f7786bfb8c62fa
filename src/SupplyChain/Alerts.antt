-- ===== src/SupplyChain/Alerts.antt =====
-- What the aggregator's alerts and urgency say of the agents' outputs.
use multiagent_platform_v.Prelude.{
  Bool, List, Option, [], ap, arith, false, if◌then◌else◌, ltb_ℤ, none, not, pos, refl, some, sym,
  ℕ, ◌&&◌, ◌++◌, ◌||◌, ◌∷◌, ◌≡◌,
}
use multiagent_platform_v.State.{
  AgentOutputs, Alert, ProductionOutput, UrgencyLevel, WeatherOutput, high, low, medium,
  stock_critical, stock_low, reorder_packaging_now, capacity_insufficient, heat_wave_demand_surge,
}
use multiagent_platform_v.SupplyChain.Aggregator.{
  Raised, check_capacity, check_heat, check_packaging, check_stock, insights_of, is_critical,
  is_heat_wave, is_insufficient, is_low, needs_packaging, raise_alert, raised_alerts,
}

-- the alert if the test holds

abbrev pub when : Bool → Alert → List Alert
when b alert = if b then alert ∷ [] else []

-- the five alerts by their tests, in a fixed order
abbrev pub alerts_by : (critical short packaging insufficient heat : Bool) → List Alert
alerts_by critical short packaging insufficient heat =
    when critical stock_critical
    ++ when (not critical && short) stock_low
    ++ when packaging reorder_packaging_now
    ++ when insufficient capacity_insufficient
    ++ when heat heat_wave_demand_surge

abbrev pub urgency_by : (critical short packaging insufficient : Bool) → UrgencyLevel
urgency_by critical short packaging insufficient =
    if critical || (packaging || insufficient) then high else if short then medium else low

abbrev raised_by : (critical short packaging insufficient heat : Bool) → Raised
raised_by critical short packaging insufficient heat =
    let r0 : Raised = ([], low) in
    let r1 =
      if critical
      then raise_alert stock_critical high r0
      else if short
      then raise_alert stock_low medium r0
      else r0 in
    let r2 = if packaging then raise_alert reorder_packaging_now high r1 else r1 in
    let r3 = if insufficient then raise_alert capacity_insufficient high r2 else r2 in
    (if heat then r3.0 ++ heat_wave_demand_surge ∷ [] else r3.0, r3.1)

raised_by_table :
    (c s p i h : Bool) → raised_by c s p i h ≡ (alerts_by c s p i h, urgency_by c s p i)
raised_by_table c s p i h = ground arith

pub insights_of-tests :
    (outputs : AgentOutputs)
    → let production = outputs.production_agent in
      let heat = is_heat_wave outputs.weather_agent in
      let critical = is_critical production in
      let short = is_low production in
      let packaging = needs_packaging production in
      let insufficient = is_insufficient production in
      ((insights_of outputs).alerts ≡ alerts_by critical short packaging insufficient heat)
      × ((insights_of outputs).urgency ≡ urgency_by critical short packaging insufficient)
unfolding insights_of raised_alerts check_stock check_packaging check_capacity check_heat
insights_of-tests outputs =
    let production = outputs.production_agent in
    let e =
      raised_by_table (is_critical production) (is_low production) (needs_packaging production)
        (is_insufficient production) (is_heat_wave outputs.weather_agent) in
    (ap (λ r. r.0) e, ap (λ r. r.1) e)

-- the production agent reports less stock than so many tenths of a day's demand

abbrev pub days_below : (tenths : ℕ) → Option ProductionOutput → Bool
days_below tenths none = false
days_below tenths (some output) = ltb_ℤ output.days_of_stock (pos tenths)

-- the agent has an output, and it says so
abbrev pub reports : {A : Type 0} → (A → Bool) → Option A → Bool
reports says none = false
reports says (some output) = says output

is_critical_lem :
    (production : Option ProductionOutput) → is_critical production ≡ days_below 50 production
is_critical_lem none = refl
is_critical_lem (some output) = refl

is_low_lem : (production : Option ProductionOutput) → is_low production ≡ days_below 100 production
is_low_lem none = refl
is_low_lem (some output) = refl

needs_packaging_lem :
    (production : Option ProductionOutput)
    → needs_packaging production ≡ reports (λ output. output.reorder_needed) production
needs_packaging_lem none = refl
needs_packaging_lem (some output) = refl

is_insufficient_lem :
    (production : Option ProductionOutput)
    → is_insufficient production ≡ reports (λ output. not output.can_meet_demand) production
is_insufficient_lem none = refl
is_insufficient_lem (some output) = refl

is_heat_wave_lem :
    (weather : Option WeatherOutput)
    → is_heat_wave weather ≡ reports (λ output. output.heat_wave) weather
is_heat_wave_lem none = refl
is_heat_wave_lem (some output) = refl

-- The aggregator's alerts, in a fixed order: a critical stock exactly if the production agent
-- reports less than 5 days of it; a low stock exactly if it reports less than 10 days but not less
-- than 5; packaging exactly if it says that a reorder is needed; capacity exactly if it says that the
-- demand cannot be met; and a heat wave exactly if the weather agent reports one. An agent without an
-- output raises no alert. The urgency is high exactly if the stock is critical, packaging is to be
-- reordered or the capacity is short; else medium exactly if the stock is low; else low. A heat wave
-- does not change it.
pub insights_of-alerts :
    (outputs : AgentOutputs)
    → let production = outputs.production_agent in
      let heat = reports (λ output. output.heat_wave) outputs.weather_agent in
      let critical = days_below 50 production in
      let short = days_below 100 production in
      let packaging = reports (λ output. output.reorder_needed) production in
      let insufficient = reports (λ output. not output.can_meet_demand) production in
      ((insights_of outputs).alerts ≡ alerts_by critical short packaging insufficient heat)
      × ((insights_of outputs).urgency ≡ urgency_by critical short packaging insufficient)
insights_of-alerts outputs =
    let production = outputs.production_agent in
    rw
      (
        sym (is_critical_lem production),
        sym (is_low_lem production),
        sym (needs_packaging_lem production),
        sym (is_insufficient_lem production),
        sym (is_heat_wave_lem outputs.weather_agent),
      )
      (insights_of-tests outputs)
