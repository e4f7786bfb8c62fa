-- ===== src/SupplyChain/Graph.antt =====
-- The graph that core/orchestrator.py builds for the supply chain, and the analysis that
-- SupplyChain.Orchestrator writes out.
-- the shared state as the orchestrator handles it; the sector has an `aggregate` of its own, so that
-- the generic insights are never put into the state
use multiagent_platform_v.Prelude.{
  List, Option, String, [], ap, if◌then◌else◌, inl, inr, none, refl, some, suc, ℕ, ◌++◌, ◌==◌, ◌∙◌,
  ◌∷◌, ◌≡◌,
}
use multiagent_platform_v.State.{UniversalState}
use multiagent_platform_v.Redis.{Redis}
use multiagent_platform_v.Hitl.{HitlSettings}
use multiagent_platform_v.Registry.{get_sector_agents, lookup}
use multiagent_platform_v.Orchestrator.{
  Agent, AgentState, Graph, Loader, build_orchestrator, built, data_agents, gather, load_agents,
  make_aggregator, make_parallel_node, parallel_agents, parallel_names,
}
use multiagent_platform_v.Orchestrator.Walk.{build_found-walks, phases, walk}
use multiagent_platform_v.SupplyChain.World.{World, in_stock, sold}
use multiagent_platform_v.SupplyChain.Weather.{run_weather_agent}
use multiagent_platform_v.SupplyChain.Sales.{run_sales_agent}
use multiagent_platform_v.SupplyChain.Production.{run_production_agent}
use multiagent_platform_v.SupplyChain.Aggregator.{aggregate}
use multiagent_platform_v.SupplyChain.Decision.{run_decision_agent}
use multiagent_platform_v.SupplyChain.Orchestrator.{
  merge_agent, merge_agents, merge_outputs, run_graph, run_parallel,
}

abbrev pub supply_state : (R : Redis) → AgentState
supply_state R = record {
  State = UniversalState;
  World = R.Db;
  append_error = λ text state. record state { errors = state.errors ++ text ∷ [] };
  absorb = λ result state. record state {
    agent_outputs = merge_outputs result.agent_outputs state.agent_outputs;
    errors = state.errors ++ result.errors;
  };
  outputs_of = λ state. data_agents;
  errors_of = λ state. state.errors;
  with_insights = λ insights state. state;
}

-- `aggregate` of sectors/supply_chain/aggregator_agent.py; no other sector has a module
abbrev pub own_aggregator : (sector : String) → Option (UniversalState → UniversalState)
own_aggregator sector = if sector == "supply_chain" then some aggregate else none

module _ (R : Redis) (world : World R) (settings : HitlSettings) (request_id : String)
    (now : ℕ) where
  abbrev pub weather : Agent (supply_state R)
  weather state s =
      let (result, t) =
        run_weather_agent R world.failure_threshold world.recovery_timeout world.fetch
          world.fetch_error now now now state s in
      (inr result, t)

  abbrev pub sales : Agent (supply_state R)
  sales state s = (inr (run_sales_agent (sold world) state), s)

  abbrev pub production : Agent (supply_state R)
  production state s = (inr (run_production_agent (in_stock world) state), s)

  abbrev pub decision : Agent (supply_state R)
  decision state s =
      let (result, t) = run_decision_agent R world settings request_id now state s in
      (inr result.state, t)

  -- the functions in the modules of sectors/supply_chain/
  abbrev pub supply_agents : List (String × Agent (supply_state R))
  supply_agents =
      ("weather_agent", weather)
      ∷ ("sales_agent", sales)
      ∷ ("production_agent", production)
      ∷ ("decision_agent", decision)
      ∷ []

  abbrev pub load_agent_fn : Loader (supply_state R)
  load_agent_fn sector agent_name =
      if sector == "supply_chain" then lookup agent_name supply_agents else none

  abbrev pub names : List String
  names =
      "weather_agent" ∷ "sales_agent" ∷ "production_agent" ∷ "aggregator_agent" ∷ "decision_agent"
      ∷ []

  abbrev pub data_loaded : List (String × Agent (supply_state R))
  data_loaded =
      ("weather_agent", weather) ∷ ("sales_agent", sales) ∷ ("production_agent", production) ∷ []

  loaded :
      load_agents
        (supply_state R)
        load_agent_fn
        "supply_chain"
        (parallel_names (supply_state R) "supply_chain" names)
      ≡ inr data_loaded
  unfolding load_agents parallel_agents
  loaded = refl

  phases-run_graph :
      (state : UniversalState) (s : R.Db)
      → phases
          (supply_state R)
          load_agent_fn
          own_aggregator
          "supply_chain"
          names
          data_loaded
          decision
          state
          s
        ≡ (let (result, t) = run_graph R world settings request_id now state s in (inr result, t))
  unfolding make_parallel_node gather make_aggregator run_graph run_parallel merge_agents
      merge_agent
  phases-run_graph state s = refl

  -- For the supply chain the orchestrator builds a graph, with the agents that the registry names,
  -- and walking it from its entry point ends, without an exception, with the state and the server
  -- that `run_graph` computes.
  pub run_graph-walks :
      (fuel : ℕ) (state : UniversalState) (s : R.Db)
      → let A = supply_state R in
        (g : Graph A) × (build_orchestrator A load_agent_fn own_aggregator "supply_chain"
            (get_sector_agents "supply_chain")
          ≡ built g)
        × (walk A (suc (suc (suc (suc fuel)))) g g.entry state s
            ≡ some (
                let (result, t) = run_graph R world settings request_id now state s in
                (inr result, t)))
  unfolding build_orchestrator get_sector_agents
  run_graph-walks fuel state s =
      let (g, builds, walks) =
        build_found-walks (supply_state R) load_agent_fn own_aggregator "supply_chain" names
          data_loaded decision fuel state s loaded (inl (refl, refl)) in
      (g, builds, walks ∙ ap some (phases-run_graph state s))
