-- ===== src/SupplyChain/Isolation.antt =====
-- What the data agents see of each other: in the parallel phase and as tools, each runs on a state
-- without the others' outputs.
use multiagent_platform_v.Prelude.{
  All, List, Option, String, [], inl, inr, pos, refl, some, ℕ, ◌∙◌, ◌∷◌, ◌≡◌, ◌⊎◌,
}
use multiagent_platform_v.State.{
  CostInfo, AgentOutputs, InputData, ProductionOutput, SalesOutput, Tool, UniversalState,
  production_tool, rag_tool, sales_tool, weather_tool,
}
use multiagent_platform_v.Hitl.{HitlSettings}
use multiagent_platform_v.SupplyChain.Aggregator.{aggregate}
use multiagent_platform_v.Redis.{Redis}
use multiagent_platform_v.SupplyChain.World.{World, decision_of, in_stock, sold}
use multiagent_platform_v.SupplyChain.Sales.{
  product_of, run_sales_agent, sales_of, weather_multiplier_of,
}
use multiagent_platform_v.SupplyChain.Production.{
  daily_demand_of, production_of, run_production_agent,
}
use multiagent_platform_v.SupplyChain.Tools.{
  ToolResult, production_result, rag_error, rag_of, rag_result, run_tool, run_tools_parallel,
  sales_result, weather_result,
}
use multiagent_platform_v.SupplyChain.Decision.{
  Merged, finish, merge_result, merge_results, run_decision_agent, select_tools, with_hitl,
  with_tools,
}
use multiagent_platform_v.SupplyChain.Orchestrator.{
  initial_state, merge_agent, merge_agents, merge_outputs, run_graph, run_parallel,
}

module _ (sales : Option SalesOutput) (production : Option ProductionOutput) where
  abbrev IsFixed : AgentOutputs → Type 0
  IsFixed outputs = (outputs.sales_agent ≡ sales) × (outputs.production_agent ≡ production)

  abbrev Agrees : ToolResult → Type 0
  Agrees (sales_result output) = output ≡ sales
  Agrees (production_result output) = output ≡ production
  Agrees _ = Unit

  merge_result-IsFixed :
      (result : ToolResult) (m : Merged)
      → Agrees result
      → IsFixed m.1
      → IsFixed (merge_result result m).1
  unfolding merge_result
  merge_result-IsFixed (weather_result output) m agrees fixed = fixed
  merge_result-IsFixed (sales_result output) m agrees fixed = (agrees, fixed.1)
  merge_result-IsFixed (production_result output) m agrees fixed = (fixed.0, agrees)
  merge_result-IsFixed (rag_result context) m agrees fixed = fixed
  merge_result-IsFixed (rag_error reason) m agrees fixed = fixed

  merge_results-IsFixed :
      (results : List ToolResult) (m : Merged)
      → All Agrees results
      → IsFixed m.1
      → IsFixed (merge_results results m).1
  unfolding merge_results
  merge_results-IsFixed [] m agree fixed = fixed
  merge_results-IsFixed (result ∷ results) m agree fixed =
      merge_results-IsFixed results (merge_result result m) agree.1
        (merge_result-IsFixed result m agree.0 fixed)

module _ (R : Redis) (world : World R) (now : ℕ) where
  -- the outputs of a sales agent that sees no weather, and of a production agent that sees no sales
  abbrev pub unadjusted_sales : (product : String) → SalesOutput
  unadjusted_sales product = sales_of (sold world product) 100

  abbrev pub default_production : (product : String) → ProductionOutput
  default_production product = production_of (in_stock world product) (pos 3000)

  abbrev pub IsIsolated : (product : String) → AgentOutputs → Type 0
  IsIsolated product outputs =
      (outputs.sales_agent ≡ some (unadjusted_sales product))
      × (outputs.production_agent ≡ some (default_production product))

  tool-Agrees :
      (tool : Tool) (state : UniversalState) (s : R.Db)
      → Agrees
          (some (unadjusted_sales (product_of state)))
          (some (default_production (product_of state)))
          (run_tool R world now tool state s).0
  unfolding run_tool run_sales_agent run_production_agent weather_multiplier_of daily_demand_of
  tool-Agrees weather_tool state s = tt
  tool-Agrees sales_tool state s = refl
  tool-Agrees production_tool state s = refl
  tool-Agrees rag_tool state s = rag-Agrees (world.build_rag_context state)
    where
      rag-Agrees :
          (answer : String ⊎ String)
          → Agrees
              (some (unadjusted_sales (product_of state)))
              (some (default_production (product_of state)))
              (rag_of answer)
      rag-Agrees (inl reason) = tt
      rag-Agrees (inr context) = tt

  tools-Agrees :
      (tools : List Tool) (state : UniversalState) (s : R.Db)
      → All
          (Agrees
            (some (unadjusted_sales (product_of state)))
            (some (default_production (product_of state))))
          (run_tools_parallel R world now tools state s).0
  unfolding run_tools_parallel
  tools-Agrees [] state s = tt
  tools-Agrees (tool ∷ tools) state s =
      (tool-Agrees tool state s, tools-Agrees tools state (run_tool R world now tool state s).1)

  pub parallel-IsIsolated :
      (tenant_id sector : String) (input_data : InputData) (s : R.Db)
      → let state = initial_state tenant_id sector input_data in
        IsIsolated (product_of state) (run_parallel R world now state s).0.agent_outputs
  unfolding run_parallel merge_agents merge_agent merge_outputs run_sales_agent run_production_agent
      weather_multiplier_of daily_demand_of initial_state
  parallel-IsIsolated tenant_id sector input_data s = (refl, refl)

module _ (R : Redis) (world : World R) (settings : HitlSettings) (request_id : String)
    (now : ℕ) where
  finish-outputs :
      (tools : List Tool) (answer : String ⊎ (String × CostInfo)) (state : UniversalState)
      (s : R.Db)
      → let outputs =
          (finish R world settings request_id now tools answer state s).0.state.agent_outputs in
        (outputs.sales_agent ≡ state.agent_outputs.sales_agent)
        × (outputs.production_agent ≡ state.agent_outputs.production_agent)
  unfolding finish with_hitl
  finish-outputs tools (inl reason) state s = (refl, refl)
  finish-outputs tools (inr (text, cost)) state s = (refl, refl)

  -- Whatever the weather is, whatever the LLM selects and however the analysis ends: the sales
  -- forecast in the end is the one with the multiplier 1.0, and stock and packaging are measured by
  -- the default demand of 30 units a day.
  pub run_graph-unadjusted :
      (tenant_id sector : String) (input_data : InputData) (s : R.Db)
      → let state = initial_state tenant_id sector input_data in
        let (result, t) = run_graph R world settings request_id now state s in
        IsIsolated R world now (product_of state) result.agent_outputs
  unfolding run_graph run_decision_agent with_tools aggregate run_parallel merge_agents merge_agent
      initial_state
  run_graph-unadjusted tenant_id sector input_data s =
      let S =
        some
          (unadjusted_sales R world now (product_of (initial_state tenant_id sector input_data))) in
      let P =
        some (
          default_production R world now
            (product_of (initial_state tenant_id sector input_data))) in
      let (collected, s1) =
        run_parallel R world now (initial_state tenant_id sector input_data) s in
      let state = aggregate collected in
      let tools = select_tools (world.select state) in
      let start = record state.agent_outputs { tools_selected = some tools } in
      let selected = record state { agent_outputs = start } in
      let (results, s2) = run_tools_parallel R world now tools selected s1 in
      let informed = with_tools tools results state in
      let kept = finish-outputs tools (decision_of world informed) informed s2 in
      let fixed =
        merge_results-IsFixed S P results ("No historical context available.", start, state.errors)
          (tools-Agrees R world now tools selected s1)
          (parallel-IsIsolated R world now tenant_id sector input_data s) in
      (kept.0 ∙ fixed.0, kept.1 ∙ fixed.1)
