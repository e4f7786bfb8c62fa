-- ===== src/Orchestrator/Tests.antt =====
-- A graph at concrete agents: the state is the log of what ran, and the world counts the calls.
use multiagent_platform_v.Prelude.{
  List, Option, String, [], if◌then◌else◌, inl, inr, none, refl, some, ℕ, ◌++◌, ◌+◌, ◌==◌, ◌∷◌, ◌≡◌,
}
use multiagent_platform_v.Orchestrator.{
  Agent, AgentState, Graph, Loader, build_found, built, gather, load_agents, make_aggregator,
  make_parallel_node, parallel_agents, parallel_names,
}
use multiagent_platform_v.Orchestrator.Walk.{build_found-walks, phases, walk}

abbrev logs : AgentState
logs = record {
  State = List String;
  World = ℕ;
  append_error = λ text state. text ∷ state;
  absorb = λ result state. result ++ state;
  outputs_of = λ state. state;
  errors_of = λ state. [];
  with_insights = λ insights state. "insights" ∷ state;
}

-- an agent that writes its name
abbrev writes : String → Agent logs
writes name state w = (inr (name ∷ []), w + 1)

abbrev fails : Agent logs
fails state w = (inl "timeout", w + 1)

abbrev load : Loader logs
load sector name = if name == "stock_agent" then some fails else some (writes name)

abbrev no_module : (sector : String) → Option (List String → List String)
no_module sector = none

abbrev names : List String
names = "price_agent" ∷ "stock_agent" ∷ "decision_agent" ∷ []

abbrev parallel_loaded : List (String × Agent logs)
parallel_loaded = ("price_agent", writes "price_agent") ∷ ("stock_agent", fails) ∷ []

loaded : load_agents logs load "retail" (parallel_names logs "retail" names) ≡ inr parallel_loaded
unfolding load_agents parallel_agents
loaded = refl

-- a sector without a decision agent
abbrev data_names : List String
data_names = "price_agent" ∷ "stock_agent" ∷ []

abbrev load_data : Loader logs
load_data sector name = if name == "decision_agent" then none else load sector name

data_loaded :
    load_agents logs load_data "retail" (parallel_names logs "retail" data_names)
    ≡ inr parallel_loaded
unfolding load_agents parallel_agents
data_loaded = refl

build_found-walks_example :
    (g : Graph logs) × (build_found logs load_data no_module "retail" data_names ≡ built g)
    × (walk logs 4 g g.entry [] 0
        ≡ some (
            phases logs load_data no_module "retail" data_names parallel_loaded
              (writes "decision_agent")
              []
              0))
build_found-walks_example =
    build_found-walks logs load_data no_module "retail" data_names parallel_loaded
      (writes "decision_agent") 0 [] 0 data_loaded (inr refl)

-- the two agents run, and no third one
data_ran :
    (phases logs load_data no_module "retail" data_names parallel_loaded
      (writes "decision_agent")
      []
      0).1
    ≡ 2
unfolding make_parallel_node gather make_aggregator
data_ran = refl

-- the decision comes last, and the agent that failed is one of the errors
ran :
    (phases logs load no_module "retail" names parallel_loaded (writes "decision_agent") [] 0).1 ≡ 3
unfolding make_parallel_node gather make_aggregator
ran = refl
