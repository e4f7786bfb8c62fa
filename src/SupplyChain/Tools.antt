-- ===== src/SupplyChain/Tools.antt =====
-- core/tools.py. Tools run one after another: the one that uses the server is `weather_tool`, and
-- each has a copy of the state for itself. A name is one of the four, since the caller has tested
-- it.
use multiagent_platform_v.Prelude.{
  List, Option, String, [], if◌then◌else◌, inl, inr, none, some, ℕ, ◌==◌, ◌∷◌, ◌⊎◌,
}
use multiagent_platform_v.State.{
  ProductionOutput, SalesOutput, Tool, UniversalState, WeatherOutput, no_outputs, production_tool,
  rag_tool, sales_tool, weather_tool,
}
use multiagent_platform_v.Redis.{Redis}
use multiagent_platform_v.SupplyChain.Weather.{run_weather_agent}
use multiagent_platform_v.SupplyChain.Sales.{run_sales_agent}
use multiagent_platform_v.SupplyChain.Production.{run_production_agent}
use multiagent_platform_v.SupplyChain.World.{World, in_stock, sold}

-- the names of SUPPLY_CHAIN_TOOLS, in their order

abbrev pub available_tools : List Tool
available_tools = weather_tool ∷ sales_tool ∷ production_tool ∷ rag_tool ∷ []

abbrev pub tool_of : String → Option Tool
tool_of name =
    if name == "weather_tool"
    then some weather_tool
    else if name == "sales_tool"
    then some sales_tool
    else if name == "production_tool"
    then some production_tool
    else if name == "rag_tool"
    then some rag_tool
    else none

-- the dict of a tool: its output, `{}` where the agent left none, or an error
pub data ToolResult : Type 0 where
  weather_result : Option WeatherOutput → ToolResult
  sales_result : Option SalesOutput → ToolResult
  production_result : Option ProductionOutput → ToolResult
  rag_result : (rag_context : String) → ToolResult
  rag_error : (reason : String) → ToolResult

abbrev pub rag_of : String ⊎ String → ToolResult
rag_of (inl reason) = rag_error reason
rag_of (inr context) = rag_result context

-- the isolated copy
abbrev pub tool_state_of : UniversalState → UniversalState
tool_state_of state = record state { agent_outputs = no_outputs; errors = [] }

module _ (R : Redis) (world : World R) (now : ℕ) where
  unfoldable pub run_tool : Tool → UniversalState → R.Db → ToolResult × R.Db
  run_tool weather_tool state s =
      let (result, s') =
        run_weather_agent R world.failure_threshold world.recovery_timeout world.fetch
          world.fetch_error now now now (tool_state_of state) s in
      (weather_result result.agent_outputs.weather_agent, s')
  run_tool sales_tool state s =
      let result = run_sales_agent (sold world) (tool_state_of state) in
      (sales_result result.agent_outputs.sales_agent, s)
  run_tool production_tool state s =
      let result = run_production_agent (in_stock world) (tool_state_of state) in
      (production_result result.agent_outputs.production_agent, s)
  run_tool rag_tool state s = (rag_of (world.build_rag_context state), s)

  unfoldable pub run_tools_parallel : List Tool → UniversalState → R.Db → List ToolResult × R.Db
  unfolding run_tool
  run_tools_parallel [] state s = ([], s)
  run_tools_parallel (tool ∷ tools) state s =
      let (result, s') = run_tool tool state s in
      let (results, t) = run_tools_parallel tools state s' in (result ∷ results, t)
