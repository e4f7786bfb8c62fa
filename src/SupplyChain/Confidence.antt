-- ===== src/SupplyChain/Confidence.antt =====
-- When a decision of the supply chain waits for a reviewer.
use multiagent_platform_v.Prelude.{
  Bool, ap, arith, false, leb, length, ltb, refl, some, true, ◌&&◌, ◌||◌, ◌∙◌, ◌≡◌,
}
use multiagent_platform_v.State.{AgentOutputs}
use multiagent_platform_v.Hitl.{
  any, deduct, evaluate_confidence, is_capacity_insufficient, is_high, is_stock_critical,
}
use multiagent_platform_v.SupplyChain.Aggregator.{
  has_fallback, insights_of, is_critical, is_heat_wave, is_insufficient, is_low, needs_packaging,
}
use multiagent_platform_v.SupplyChain.Alerts.{alerts_by, insights_of-tests}

below_by_tests :
    (critical insufficient urgent fallback : Bool)
    → ltb
        (deduct fallback 250
          (deduct urgent 200 (deduct insufficient 250 (deduct critical 300 1000))))
        800
      ≡ (critical || (insufficient || fallback))
below_by_tests true true true true = refl
below_by_tests true true true false = refl
below_by_tests true true false true = refl
below_by_tests true true false false = refl
below_by_tests true false true true = refl
below_by_tests true false true false = refl
below_by_tests true false false true = refl
below_by_tests true false false false = refl
below_by_tests false true true true = refl
below_by_tests false true true false = refl
below_by_tests false true false true = refl
below_by_tests false true false false = refl
below_by_tests false false true true = refl
below_by_tests false false true false = refl
below_by_tests false false false true = refl
below_by_tests false false false false = refl

any_critical : (c s p i h : Bool) → any is_stock_critical (alerts_by c s p i h) ≡ c
any_critical c s p i h = ground arith

any_insufficient : (c s p i h : Bool) → any is_capacity_insufficient (alerts_by c s p i h) ≡ i
any_insufficient c s p i h = ground arith

-- With the default threshold of 0.80, what the aggregator says of the agents' outputs needs a
-- reviewer exactly if the stock is critical, the capacity is short, or an agent used fallback data;
-- high urgency with three alerts or more does not by itself.
pub evaluate_confidence-insights_of :
    (outputs : AgentOutputs)
    → ltb (evaluate_confidence (some (insights_of outputs))) 800 ≡ (
        is_critical outputs.production_agent
        || (is_insufficient outputs.production_agent
            || has_fallback outputs.weather_agent outputs.sales_agent outputs.production_agent))
unfolding evaluate_confidence insights_of
evaluate_confidence-insights_of outputs =
    let production = outputs.production_agent in
    let c = is_critical production in
    let s = is_low production in
    let p = needs_packaging production in
    let i = is_insufficient production in
    let h = is_heat_wave outputs.weather_agent in
    let insights = insights_of outputs in
    let fallback = has_fallback outputs.weather_agent outputs.sales_agent production in
    let alerts = (insights_of-tests outputs).0 in
    let critical = ap (any is_stock_critical) alerts ∙ any_critical c s p i h in
    let insufficient = ap (any is_capacity_insufficient) alerts ∙ any_insufficient c s p i h in
    below_by_tests (any is_stock_critical insights.alerts)
      (any is_capacity_insufficient insights.alerts)
      (is_high insights.urgency && leb 3 (length insights.alerts)) fallback
    ∙ (λ j. critical j || (insufficient j || fallback))
