-- ===== src/SupplyChain/Offline.antt =====
-- The analysis when the ERP does not answer.
use multiagent_platform_v.SupplyChain.World.{World, decision_of, in_stock}
use multiagent_platform_v.SupplyChain.Orchestrator.{initial_state, run_graph, run_parallel}
use multiagent_platform_v.SupplyChain.Decision.{
  finish, run_decision_agent, select_tools, with_hitl, with_tools,
}
use multiagent_platform_v.SupplyChain.Tools.{run_tools_parallel}
use multiagent_platform_v.SupplyChain.Aggregator.{
  aggregate, has_fallback, insights_of, is_critical, is_insufficient,
}
use multiagent_platform_v.SupplyChain.Production.{production_of, production_output}
use multiagent_platform_v.SupplyChain.Sales.{product_of}
use multiagent_platform_v.Prelude.{
  List, String, ap, arith, false, inl, inr, ltb, none, pos, refl, round_ℕ, round_ℤ, some, true, ℕ,
  ◌||◌, ◌∙◌, ◌≡◌, ◌⊎◌,
}
use multiagent_platform_v.State.{CostInfo, InputData, ProductionOutput, Tool, UniversalState}
use multiagent_platform_v.Erp.{get_stock}
use multiagent_platform_v.Redis.{Redis}
use multiagent_platform_v.Hitl.{HitlSettings, evaluate_confidence}
use multiagent_platform_v.SupplyChain.Confidence.{evaluate_confidence-insights_of}
use multiagent_platform_v.SupplyChain.Isolation.{parallel-IsIsolated, run_graph-unadjusted}
use multiagent_platform_v.SupplyChain.Pending.{IsFailed, IsWaiting, run_graph-cases}

-- what the production agent makes of an ERP that does not answer: nothing is in stock

abbrev pub empty_production : ProductionOutput
empty_production = production_output (pos 0) (pos 3000) false

empty-is_critical : is_critical (some empty_production) ≡ true
unfolding production_output round_ℤ round_ℕ
empty-is_critical = refl

module _ (R : Redis) (world : World R) (settings : HitlSettings) (request_id : String)
    (now : ℕ) where
  finish-insights :
      (tools : List Tool) (answer : String ⊎ (String × CostInfo)) (state : UniversalState)
      (s : R.Db)
      → (finish R world settings request_id now tools answer state s).0.state.aggregated_insights
        ≡ state.aggregated_insights
  unfolding finish with_hitl
  finish-insights tools (inl reason) state s = refl
  finish-insights tools (inr (text, cost)) state s = refl

  module _ (tenant_id sector : String) (input_data : InputData) (s : R.Db) where
    abbrev state : UniversalState
    state = initial_state tenant_id sector input_data

    -- the insights are those of the outputs of the parallel phase
    run_graph-insights :
        (run_graph R world settings request_id now state s).0.aggregated_insights
        ≡ some (insights_of (run_parallel R world now state s).0.agent_outputs)
    unfolding run_graph run_decision_agent with_tools aggregate
    run_graph-insights =
        let (collected, s1) = run_parallel R world now state s in
        let st = aggregate collected in
        let tools = select_tools (world.select st) in
        let selected = record st {
          agent_outputs = record st.agent_outputs { tools_selected = some tools };
        } in
        let (results, s2) = run_tools_parallel R world now tools selected s1 in
        let informed = with_tools tools results st in
        finish-insights tools (decision_of world informed) informed s2

    offline_production :
        world.bins (product_of state) ≡ none
        → production_of (in_stock world (product_of state)) (pos 3000) ≡ empty_production
    unfolding production_of get_stock
    offline_production down =
        ap
          (λ bins.
            production_output (get_stock bins (world.safety_stock (product_of state))).actual_qty
              (pos 3000) false)
          down

    uncertain-offline :
        world.bins (product_of state) ≡ none
        → ltb
            (evaluate_confidence
              (run_graph R world settings request_id now state s).0.aggregated_insights)
            800
          ≡ true
    uncertain-offline down =
        let outputs = (run_parallel R world now state s).0.agent_outputs in
        let rest =
          is_insufficient outputs.production_agent
          || has_fallback outputs.weather_agent outputs.sales_agent outputs.production_agent in
        let isolated =
          (parallel-IsIsolated R world now tenant_id sector input_data s).1
          ∙ ap some (offline_production down) in
        ap (λ i. ltb (evaluate_confidence i) 800) run_graph-insights
        ∙ evaluate_confidence-insights_of outputs
        ∙ ap (λ c. c || rest) (ap is_critical isolated ∙ empty-is_critical)

    -- Where the ERP does not answer the query for the stock, the result reports a stock of 0 units
    -- that is not marked as fallback data; and with the default threshold of 0.80 no analysis is
    -- completed without a reviewer: it fails, or waits for one.
    pub run_graph-offline :
        settings.confidence_threshold ≡ 800
        → world.bins (product_of state) ≡ none
        → let (result, t) = run_graph R world settings request_id now state s in
          (result.agent_outputs.production_agent ≡ some empty_production)
          × (IsFailed result ⊎ IsWaiting R settings request_id result t)
    run_graph-offline default down = (
      (run_graph-unadjusted R world settings request_id now tenant_id sector input_data s).1
          ∙ ap some (offline_production down),
      elim (run_graph-cases R world settings request_id now tenant_id sector input_data s) [
        | inl error ↦ inl error
        | inr (inr waiting) ↦ inr waiting
        | inr (inl finished) ↦ absurd (ground (arith, uncertain-offline down, default, finished.1))
      ],
    )
