-- ===== src/SupplyChain/Orchestrator.antt =====
-- core/orchestrator.py, for the one sector that has agents: the other sectors raise when their graph
-- is built, and an agent of this sector catches the exceptions of what it calls; what goes through
-- all the same is an argument of `run_analysis`. The cache of compiled graphs changes
-- nothing that can be seen. The data agents run on copies of the state, and the one that uses the
-- server is the weather agent, so that their order does not matter.
use multiagent_platform_v.Prelude.{
  List, Option, String, [], format, inl, inr, none, some, ℕ, ◌++◌, ◌∷◌, ◌⊎◌,
}
use multiagent_platform_v.State.{AgentOutputs, InputData, RunStatus, UniversalState, no_outputs}
use multiagent_platform_v.Redis.{Redis}
use multiagent_platform_v.Hitl.{HitlSettings}
use multiagent_platform_v.Registry.{Found, found, get_sector_agents, no_agents_yet, unknown_sector}
use multiagent_platform_v.Worker.{Ending, raised, returned, soft_time_limit}
use multiagent_platform_v.SupplyChain.World.{World, in_stock, sold}
use multiagent_platform_v.SupplyChain.Weather.{run_weather_agent}
use multiagent_platform_v.SupplyChain.Sales.{run_sales_agent}
use multiagent_platform_v.SupplyChain.Production.{run_production_agent}
use multiagent_platform_v.SupplyChain.Aggregator.{aggregate}
use multiagent_platform_v.SupplyChain.Decision.{run_decision_agent}

-- the new value of a key if there is one: `dict.update`

abbrev pub or_old {ℓ} : {A : Type ℓ} → Option A → Option A → Option A
or_old none old = old
or_old (some new) old = some new

unfoldable pub merge_outputs : (new old : AgentOutputs) → AgentOutputs
merge_outputs new old = record {
  weather_agent = or_old new.weather_agent old.weather_agent;
  sales_agent = or_old new.sales_agent old.sales_agent;
  production_agent = or_old new.production_agent old.production_agent;
  tools_selected = or_old new.tools_selected old.tools_selected;
  tools_called = or_old new.tools_called old.tools_called;
  rag_context = or_old new.rag_context old.rag_context;
  decision_cost = or_old new.decision_cost old.decision_cost;
  decision_text = or_old new.decision_text old.decision_text;
  hitl = or_old new.hitl old.hitl;
}

-- what `asyncio.gather` has for an agent: its state, or the text of its exception
unfoldable pub merge_agent :
    (name : String) → String ⊎ UniversalState → UniversalState → UniversalState
unfolding merge_outputs
merge_agent name (inl reason) state = record state {
  errors = state.errors ++ format (name ∷ " failed: " ∷ reason ∷ []) ∷ [];
}
merge_agent name (inr result) state = record state {
  agent_outputs = merge_outputs result.agent_outputs state.agent_outputs;
  errors = state.errors ++ result.errors;
}

unfoldable pub merge_agents :
    List (String × (String ⊎ UniversalState)) → UniversalState → UniversalState
unfolding merge_agent
merge_agents [] state = state
merge_agents ((name, result) ∷ results) state = merge_agents results (merge_agent name result state)

-- what may end an analysis before it returns: Celery's soft time limit, or an exception that no
-- agent catches, such as one of the server, or the TypeError of core/hitl.py where a reviewer is asked
-- about a message of Groq without a content. What an agent does catch, the soft time limit among it,
-- is an exception of the call that the agent made.
pub data Cut : Type 0 where
  time_limit : Cut
  escaped : (reason : String) → Cut

unfoldable pub initial_state : (tenant_id sector : String) → InputData → UniversalState
initial_state tenant_id sector input_data = record {
  tenant_id = tenant_id;
  sector = sector;
  input_data = input_data;
  agent_outputs = no_outputs;
  aggregated_insights = none;
  final_decision = none;
  errors = [];
  status = RunStatus.running;
}

module _ (R : Redis) (world : World R) (now : ℕ) where
  -- the node `parallel_agents`
  unfoldable pub run_parallel : UniversalState → R.Db → UniversalState × R.Db
  unfolding merge_agents
  run_parallel state s =
      let (weather, s') =
        run_weather_agent R world.failure_threshold world.recovery_timeout world.fetch
          world.fetch_error now now now state s in
      let sales = run_sales_agent (sold world) state in
      let production = run_production_agent (in_stock world) state in
      (
        merge_agents
            (("weather_agent", inr weather)
              ∷ ("sales_agent", inr sales)
              ∷ ("production_agent", inr production)
              ∷ [])
            state,
        s',
      )

module _ (R : Redis) (world : World R) (settings : HitlSettings) (request_id : String)
    (now : ℕ) where
  -- the compiled graph of the sector: parallel_agents, aggregator_agent, decision_agent
  unfoldable pub run_graph : UniversalState → R.Db → UniversalState × R.Db
  unfolding run_parallel
  run_graph state s =
      let (collected, s1) = run_parallel R world now state s in
      let (decided, s2) =
        run_decision_agent R world settings request_id now (aggregate collected) s1 in
      (decided.state, s2)

  abbrev pub run_found : (sector : String) → Found → UniversalState → R.Db → Ending × R.Db
  run_found sector unknown_sector state s = (
    raised (
        format (
          "Unknown sector: '" ∷ sector
          ∷ "'. Available: ['supply_chain', 'legal', 'hr', 'real_estate']" ∷ [])),
    s,
  )
  run_found sector no_agents_yet state s =
      (raised (format ("Sector '" ∷ sector ∷ "' is registered but has no agents yet." ∷ [])), s)
  run_found sector (found agents) state s =
      let (result, t) = run_graph state s in (returned result, t)

  -- what cuts an analysis off, wherever it is by then, and what it has left on the server
  unfoldable pub run_analysis :
      Option (Cut × (R.Db → R.Db)) → (tenant_id sector : String) → InputData → R.Db → Ending × R.Db
  unfolding run_graph initial_state
  run_analysis (some (time_limit, left)) tenant_id sector input_data s = (soft_time_limit, left s)
  run_analysis (some (escaped reason, left)) tenant_id sector input_data s = (raised reason, left s)
  run_analysis none tenant_id sector input_data s =
      run_found sector (get_sector_agents sector) (initial_state tenant_id sector input_data) s
