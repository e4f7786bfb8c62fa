-- ===== src/Orchestrator/Walk.antt =====
-- How a compiled graph runs: LangGraph calls the node and goes on along its edge.
use multiagent_platform_v.Prelude.{
  Bool, Bool-cases, List, Option, String, false, get_or, if◌then◌else◌, inl, inr, none, refl, some,
  suc, true, zero, ℕ, ◌==◌, ◌≡◌, ◌⊎◌,
}
use multiagent_platform_v.Registry.{lookup}
use multiagent_platform_v.Orchestrator.{
  Agent, AgentState, Graph, Loader, Node, aggregator_name, build_found, built, has_decision,
  load_agents, make_aggregator, make_parallel_node, parallel_names, three_phases, two_phases,
}
use multiagent_platform_v.Redis.Commands.{contains}

module _ (A : AgentState) where
  abbrev pub next_of : Graph A → String → String
  next_of g name = get_or (lookup name g.edges) "__end__"

  -- with fuel for so many nodes and END; `none` means that it ran out
  unfoldable pub walk :
      ℕ → Graph A → (name : String) → A.State → A.World → Option ((String ⊎ A.State) × A.World)
  walk zero g name state w = none
  walk (suc fuel) g name state w =
      if name == "__end__" then some (inr state, w) else (elim (lookup name g.nodes) [
        | none ↦ some (inl name, w)
        | some node ↦
            let (result, w') = node state w in
            elim result [
              | inl reason ↦ some (inl reason, w')
              | inr state' ↦ walk fuel g (next_of g name) state' w'
            ]
      ])

  -- one node after the other, without a graph
  infixl 5 ◌▷◌
  abbrev pub ◌▷◌ : Node A → Node A → Node A
  (f ▷ g) state w =
      let (result, w') = f state w in
      elim result [ inl reason ↦ (inl reason, w') | inr state' ↦ g state' w' ]

  last_node :
      (p : (String ⊎ A.State) × A.World)
      → ◌≡◌ {A = Option ((String ⊎ A.State) × A.World)}
          (elim p.0 [ inl reason ↦ some (inl reason, p.1) | inr state ↦ some (inr state, p.1) ])
          (some p)
  last_node (inl reason, w) = refl
  last_node (inr state, w) = refl

  three_walk :
      (agents : List (String × Agent A)) (sector : String) (decision : Agent A) (supply : Bool)
      (fuel : ℕ) (state : A.State) (w : A.World) (own : Option (A.State → A.State))
      → let parallel = make_parallel_node A agents in
        let aggregator = make_aggregator A own sector in
        walk
          (suc (suc (suc (suc fuel))))
          (three_phases A
            (if supply then "aggregator_agent" else "aggregator")
            parallel
            aggregator
            decision)
          "parallel_agents"
          state
          w
        ≡ some ((parallel ▷ aggregator ▷ decision) state w)
  unfolding walk make_parallel_node make_aggregator
  three_walk agents sector decision true fuel state w none = last_node _
  three_walk agents sector decision false fuel state w none = last_node _
  three_walk agents sector decision true fuel state w (some f) = last_node _
  three_walk agents sector decision false fuel state w (some f) = last_node _

  two_walk :
      (agents : List (String × Agent A)) (sector : String) (fuel : ℕ) (state : A.State)
      (w : A.World) (own : Option (A.State → A.State))
      → let parallel = make_parallel_node A agents in
        let aggregator = make_aggregator A own sector in
        walk
          (suc (suc (suc (suc fuel))))
          (two_phases A parallel aggregator)
          "parallel_agents"
          state
          w
        ≡ some ((parallel ▷ aggregator) state w)
  unfolding walk make_parallel_node make_aggregator
  two_walk agents sector fuel state w none = refl
  two_walk agents sector fuel state w (some f) = refl

  module _ (load : Loader A) (own : (sector : String) → Option (A.State → A.State))
      (sector : String) (names : List String) (agents : List (String × Agent A))
      (decision : Agent A) where
    abbrev pub parallel : Node A
    parallel = make_parallel_node A agents

    abbrev pub aggregator : Node A
    aggregator = make_aggregator A (own sector) sector

    -- the phases of the analysis, in order
    abbrev pub phases : Node A
    phases =
        if has_decision A sector names
        then parallel ▷ aggregator ▷ decision
        else parallel ▷ aggregator

    abbrev pub graph : Graph A
    graph =
        if has_decision A sector names
        then three_phases A (aggregator_name A sector) parallel aggregator decision
        else two_phases A parallel aggregator

    -- the loader has found the decision agent, or the sector has none
    abbrev pub IsLoaded : Type 0
    IsLoaded =
        ((has_decision A sector names ≡ true) × (load sector "decision_agent" ≡ some decision))
        ⊎ (has_decision A sector names ≡ false)

    builds :
        load_agents A load sector (parallel_names A sector names) ≡ inr agents
        → IsLoaded
        → build_found A load own sector names ≡ built graph
    unfolding build_found
    builds loaded (inl (wanted, decided)) = rw (build_found, loaded, wanted, decided) refl
    builds loaded (inr unwanted) = rw (build_found, loaded, unwanted) refl

    walks :
        (fuel : ℕ) (state : A.State) (w : A.World)
        → walk (suc (suc (suc (suc fuel)))) graph graph.entry state w ≡ some (phases state w)
    walks fuel state w = elim (Bool-cases (sector == "supply_chain")) [
      | inl supply ↦ rw supply (three_walk agents sector decision true fuel state w (own sector))
      | inr other ↦ elim (Bool-cases (contains "decision_agent" names)) [
        | inl wanted ↦
            rw (other, wanted) (three_walk agents sector decision false fuel state w (own sector))
        | inr unwanted ↦ rw (other, unwanted) (two_walk agents sector fuel state w (own sector))
      ]
    ]

    -- Where the data agents of a sector are found, and its decision agent too if it has one, a graph
    -- is built; and whatever the agents do, a walk from its entry point needs fuel for no more than
    -- three nodes and END: it ends, with what the phases give one after the other: all data agents in
    -- parallel, the aggregator, and then the decision agent, or nothing in a sector that has none.
    pub build_found-walks :
        (fuel : ℕ) (state : A.State) (w : A.World)
        → load_agents A load sector (parallel_names A sector names) ≡ inr agents
        → IsLoaded
        → (g : Graph A) × (build_found A load own sector names ≡ built g)
          × (walk (suc (suc (suc (suc fuel)))) g g.entry state w ≡ some (phases state w))
    build_found-walks fuel state w loaded decided =
        (graph, builds loaded decided, walks fuel state w)
