-- ===== src/SupplyChain/Frame.antt =====
-- The keys that the analysis writes: the circuit of the weather service and the reviewer's request.
use multiagent_platform_v.Prelude.{
  Bool-cases, List, Option, String, [], get_or, inl, inr, ltb, none, refl, some, ℕ, ◌∙◌, ◌∷◌, ◌≡◌,
  ◌≢◌, ◌⊎◌,
}
use multiagent_platform_v.State.{
  AggregatedInsights, CostInfo, HitlResult, InputData, Tool, UniversalState, production_tool,
  rag_tool, sales_tool, weather_tool,
}
use multiagent_platform_v.Memory.{save_decision_memory}
use multiagent_platform_v.Documents.{pending}
use multiagent_platform_v.Redis.{Key, Redis}
use multiagent_platform_v.Hitl.{
  HitlSettings, evaluate_confidence, hitl_checkpoint, request_human_validation,
}
use multiagent_platform_v.CircuitBreaker.Frame.{protect-other}
use multiagent_platform_v.Registry.{Found, found, get_sector_agents, no_agents_yet, unknown_sector}
use multiagent_platform_v.SupplyChain.Weather.{location_of, open_meteo, run_weather_agent}
use multiagent_platform_v.SupplyChain.World.{World, decision_of}
use multiagent_platform_v.SupplyChain.Tools.{run_tool, run_tools_parallel, tool_state_of}
use multiagent_platform_v.SupplyChain.Aggregator.{aggregate}
use multiagent_platform_v.SupplyChain.Decision.{
  finish, remember, run_decision_agent, select_tools, with_tools,
}
use multiagent_platform_v.SupplyChain.Orchestrator.{
  Cut, escaped, initial_state, run_analysis, run_found, run_graph, run_parallel, time_limit,
}

-- what is left by an analysis that is cut off has the key as it was

abbrev pub IsCutApart : (R : Redis) → Key → Option (Cut × (R.Db → R.Db)) → Type 0
IsCutApart R k none = Unit
IsCutApart R k (some (cut, left)) = (s : R.Db) (d : ℕ) → R.peek (left s) k d ≡ R.peek s k d

module _ (R : Redis) (world : World R) (now : ℕ) (k : Key) where
  -- the call of the weather service, and the breaker's circuit, do not touch `k`
  pub record IsApart : Type 0 where
    pub not_circuit : Key.circuit open_meteo ≢ k
    pub fetch_apart :
        (location : String) (s : R.Db) (d : ℕ)
        → R.peek (world.fetch location s).1 k d ≡ R.peek s k d

  pub weather-other :
      IsApart
      → (state : UniversalState) (s : R.Db) (d : ℕ)
      → R.peek
          (run_weather_agent R world.failure_threshold world.recovery_timeout world.fetch
            world.fetch_error now now now state s).1
          k
          d
        ≡ R.peek s k d
  unfolding run_weather_agent
  weather-other h state s d =
      protect-other R world.failure_threshold world.recovery_timeout open_meteo k d now now now
        (world.fetch (location_of state)) s h.not_circuit
        (λ s'. h.fetch_apart (location_of state) s' d)

  run_tool-other :
      IsApart
      → (tool : Tool) (state : UniversalState) (s : R.Db) (d : ℕ)
      → R.peek (run_tool R world now tool state s).1 k d ≡ R.peek s k d
  unfolding run_tool
  run_tool-other h weather_tool state s d = weather-other h (tool_state_of state) s d
  run_tool-other h sales_tool state s d = refl
  run_tool-other h production_tool state s d = refl
  run_tool-other h rag_tool state s d = refl

  pub run_tools-other :
      IsApart
      → (tools : List Tool) (state : UniversalState) (s : R.Db) (d : ℕ)
      → R.peek (run_tools_parallel R world now tools state s).1 k d ≡ R.peek s k d
  unfolding run_tools_parallel
  run_tools-other h [] state s d = refl
  run_tools-other h (tool ∷ tools) state s d =
      run_tools-other h tools state (run_tool R world now tool state s).1 d
      ∙ run_tool-other h tool state s d

  module _ (settings : HitlSettings) (request_id : String) where
    hitl_checkpoint-other :
        (tenant_id sector decision : String) (insights : Option AggregatedInsights) (s : R.Db)
        (d : ℕ)
        → Key.hitl_approval request_id ≢ k
        → R.peek
            (hitl_checkpoint R settings request_id tenant_id sector decision insights now s).2
            k
            d
          ≡ R.peek s k d
    unfolding hitl_checkpoint request_human_validation
    hitl_checkpoint-other tenant_id sector decision insights s d ne =
        elim (Bool-cases (ltb (evaluate_confidence insights) settings.confidence_threshold)) [
          | inl uncertain ↦
              rw (hitl_checkpoint, uncertain)
                (R.peek-store_ne (Key.hitl_approval request_id) k pending _ s d ne)
          | inr certain ↦ rw (hitl_checkpoint, certain) refl
        ]

    -- no memory of a decision
    abbrev pub IsNoMemory : Type 0
    IsNoMemory =
        (tenant_id sector product_id : String) → Key.last_decision tenant_id sector product_id ≢ k

    remember-other :
        IsNoMemory
        → (hitl : HitlResult) (state : UniversalState) (s : R.Db) (d : ℕ)
        → R.peek (remember R world settings request_id now hitl state s) k d ≡ R.peek s k d
    unfolding remember save_decision_memory
    remember-other none_kept hitl state s d = elim (Bool-cases hitl.pending) [
      | inl waits ↦ rw (remember, waits) refl
      | inr decided ↦
          rw (remember, decided)
            (R.peek-store_ne _ k _ _ s d (
              none_kept state.tenant_id "supply_chain"
                (get_or state.input_data.product_id "DEFAULT")))
    ]

    finish-other :
        (tools : List Tool) (answer : String ⊎ (String × CostInfo)) (state : UniversalState)
        (s : R.Db) (d : ℕ)
        → Key.hitl_approval request_id ≢ k
        → IsNoMemory
        → R.peek (finish R world settings request_id now tools answer state s).1 k d ≡ R.peek s k d
    unfolding finish
    finish-other tools (inl reason) state s d ne none_kept = refl
    finish-other tools (inr (text, cost)) state s d ne none_kept =
        let (hitl, review, s') =
          hitl_checkpoint R settings request_id state.tenant_id "supply_chain" text
            state.aggregated_insights now s in
        remember-other none_kept hitl state s' d
        ∙ hitl_checkpoint-other state.tenant_id "supply_chain" text state.aggregated_insights s d ne

    run_graph-other :
        IsApart
        → Key.hitl_approval request_id ≢ k
        → IsNoMemory
        → (state : UniversalState) (s : R.Db) (d : ℕ)
        → R.peek (run_graph R world settings request_id now state s).1 k d ≡ R.peek s k d
    unfolding run_graph run_parallel run_decision_agent
    run_graph-other h ne none_kept state s d =
        let (collected, s1) = run_parallel R world now state s in
        let st = aggregate collected in
        let tools = select_tools (world.select st) in
        let selected = record st {
          agent_outputs = record st.agent_outputs { tools_selected = some tools };
        } in
        let (results, s2) = run_tools_parallel R world now tools selected s1 in
        let informed = with_tools tools results st in
        finish-other tools (decision_of world informed) informed s2 d ne none_kept
        ∙ run_tools-other h tools selected s1 d
        ∙ weather-other h state s d

    run_found-other :
        IsApart
        → Key.hitl_approval request_id ≢ k
        → IsNoMemory
        → (sector : String) (f : Found) (state : UniversalState) (s : R.Db) (d : ℕ)
        → R.peek (run_found R world settings request_id now sector f state s).1 k d ≡ R.peek s k d
    run_found-other h ne none_kept sector unknown_sector state s d = refl
    run_found-other h ne none_kept sector no_agents_yet state s d = refl
    run_found-other h ne none_kept sector (found agents) state s d =
        run_graph-other h ne none_kept state s d

    pub run_analysis-other :
        IsApart
        → Key.hitl_approval request_id ≢ k
        → IsNoMemory
        → (cut : Option (Cut × (R.Db → R.Db))) → IsCutApart R k cut
        → (tenant_id sector : String) (input_data : InputData) (s : R.Db) (d : ℕ)
        → R.peek
            (run_analysis R world settings request_id now cut tenant_id sector input_data s).1
            k
            d
          ≡ R.peek s k d
    unfolding run_analysis
    run_analysis-other h ne none_kept (some (time_limit, left)) quiet tenant_id sector input_data s
          d =
        quiet s d
    run_analysis-other h ne none_kept (some (escaped reason, left)) quiet tenant_id sector
          input_data s d =
        quiet s d
    run_analysis-other h ne none_kept none quiet tenant_id sector input_data s d =
        run_found-other h ne none_kept sector (get_sector_agents sector)
          (initial_state tenant_id sector input_data) s d
