-- ===== src/Orchestrator.antt =====
-- core/orchestrator.py: the graph of a sector, for any agents. The shared state of an analysis is an
-- interface with what the orchestrator does to it; the world is all that the agents reach outside
-- it. The module loader and LangGraph are not part of the repository: what an import finds is an
-- argument, and a compiled graph is walked along its edges from the entry point to END, as its
-- documentation says. The names of a sector's agents are distinct.
-- SupplyChain.Orchestrator has the graph of the one sector with agents.
pub mod Walk
pub mod Cache
mod Tests
use multiagent_platform_v.Prelude.{
  Bool, List, Option, String, [], false, format, if◌then◌else◌, inl, inr, keep, none, not, some,
  true, ◌==◌, ◌||◌, ◌∷◌, ◌⊎◌,
}
use multiagent_platform_v.Redis.Commands.{contains}
use multiagent_platform_v.Registry.{Found, found, no_agents_yet, unknown_sector}

-- {"sector", "agents_ran", "errors"}

pub record GenericInsights : Type 0 where
  pub sector : String
  pub agents_ran : List String
  pub errors : List String

pub record AgentState : Type 1 where
  pub State : Type 0
  pub World : Type 0
  -- `state["errors"].append(text)`
  pub append_error : String → State → State
  -- `agent_outputs.update` and `errors.extend` with those of the other
  pub absorb : (result : State) → State → State
  pub outputs_of : State → List String
  pub errors_of : State → List String
  -- `state["aggregated_insights"] = ...`
  pub with_insights : GenericInsights → State → State

abbrev pub data_agents : List String
data_agents = "weather_agent" ∷ "sales_agent" ∷ "production_agent" ∷ []

abbrev pub or_names : List String → List String → List String
or_names [] others = others
or_names (name ∷ names) others = name ∷ names

-- the agents that run before the aggregator
unfoldable pub parallel_agents : List String → List String
parallel_agents names =
    or_names (keep (λ name. contains name data_agents) names)
      (keep (λ name. not (contains name ("aggregator_agent" ∷ "decision_agent" ∷ []))) names)

module _ (A : AgentState) where
  -- an agent, or the text of its exception
  abbrev pub Agent : Type 0
  Agent = A.State → A.World → (String ⊎ A.State) × A.World

  -- a node of the graph
  abbrev pub Node : Type 0
  Node = Agent

  -- `load_agent_fn` for the names of a list: the ImportError of the first that is not found
  abbrev pub Loader : Type 0
  Loader = (sector agent_name : String) → Option Agent

  unfoldable pub load_agents :
      Loader → (sector : String) → List String → String ⊎ List (String × Agent)
  load_agents load sector [] = inr []
  load_agents load sector (name ∷ names) = elim (load sector name) [
    | none ↦ inl name
    | some agent ↦ elim (load_agents load sector names) [
      | inl missing ↦ inl missing
      | inr agents ↦ inr ((name, agent) ∷ agents)
    ]
  ]

  abbrev pub merge_result : (name : String) → String ⊎ A.State → A.State → A.State
  merge_result name (inl reason) state =
      A.append_error (format (name ∷ " failed: " ∷ reason ∷ [])) state
  merge_result name (inr result) state = A.absorb result state

  -- each agent gets a copy of the state as it was; the results are merged in the order of the names
  unfoldable pub gather :
      List (String × Agent) → (copy state : A.State) → A.World → A.State × A.World
  gather [] copy state w = (state, w)
  gather ((name, agent) ∷ agents) copy state w =
      let (result, w') = agent copy w in gather agents copy (merge_result name result state) w'

  unfoldable pub make_parallel_node : List (String × Agent) → Node
  unfolding gather
  make_parallel_node agents state w =
      let (state', w') = gather agents state state w in (inr state', w')

  -- the sector's own `aggregate`, or the generic one
  unfoldable pub make_aggregator : (own : Option (A.State → A.State)) → (sector : String) → Node
  make_aggregator none sector state w = (
    inr (
        A.with_insights
          (record { sector = sector; agents_ran = A.outputs_of state; errors = A.errors_of state })
          state),
    w,
  )
  make_aggregator (some aggregate) sector state w = (inr (aggregate state), w)

  -- StateGraph: named nodes, edges, the entry point; a node with no edge is followed by END
  pub record Graph : Type 0 where
    pub nodes : List (String × Node)
    pub edges : List (String × String)
    pub entry : String

  abbrev pub three_phases : (aggregator_name : String) → Node → Node → Node → Graph
  three_phases aggregator_name parallel aggregator decision = record {
    nodes =
        ("parallel_agents", parallel)
        ∷ (aggregator_name, aggregator)
        ∷ ("decision_agent", decision)
        ∷ [];
    edges =
        ("parallel_agents", aggregator_name)
        ∷ (aggregator_name, "decision_agent")
        ∷ ("decision_agent", "__end__")
        ∷ [];
    entry = "parallel_agents";
  }

  abbrev pub two_phases : Node → Node → Graph
  two_phases parallel aggregator = record {
    nodes = ("parallel_agents", parallel) ∷ ("aggregator", aggregator) ∷ [];
    edges = ("parallel_agents", "aggregator") ∷ ("aggregator", "__end__") ∷ [];
    entry = "parallel_agents";
  }

  -- a graph, or the exception of its construction
  pub data Built : Type 0 where
    built : Graph → Built
    import_error : (agent_name : String) → Built
    value_error not_implemented : Built

  abbrev pub parallel_names : (sector : String) → List String → List String
  parallel_names sector names =
      if sector == "supply_chain" then parallel_agents data_agents else parallel_agents names

  abbrev pub has_decision : (sector : String) → List String → Bool
  has_decision sector names = sector == "supply_chain" || contains "decision_agent" names

  abbrev pub aggregator_name : (sector : String) → String
  aggregator_name sector = if sector == "supply_chain" then "aggregator_agent" else "aggregator"

  module _ (load : Loader) (own : (sector : String) → Option (A.State → A.State)) where
    abbrev pub with_decision :
        (sector : String) → (parallel : Node) → (wanted : Bool) → Option Agent → Built
    with_decision sector parallel false decision =
        built (two_phases parallel (make_aggregator (own sector) sector))
    with_decision sector parallel true none = import_error "decision_agent"
    with_decision sector parallel true (some decision) = built (
        three_phases (aggregator_name sector) parallel (make_aggregator (own sector) sector)
          decision)

    unfoldable pub build_found : (sector : String) → List String → Built
    unfolding load_agents
    build_found sector names = elim (load_agents load sector (parallel_names sector names)) [
      | inl missing ↦ import_error missing
      | inr agents ↦
          with_decision sector (make_parallel_node agents) (has_decision sector names)
            (load sector "decision_agent")
    ]

    unfoldable pub build_orchestrator : (sector : String) → Found → Built
    unfolding build_found
    build_orchestrator sector unknown_sector = value_error
    build_orchestrator sector no_agents_yet = not_implemented
    build_orchestrator sector (found names) = build_found sector names
