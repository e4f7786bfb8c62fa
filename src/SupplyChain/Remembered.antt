-- ===== src/SupplyChain/Remembered.antt =====
-- What an analysis leaves in the memory of decisions, and what an outcome finds there.
use multiagent_platform_v.Prelude.{
  Bool-cases, List, Option, String, ap, arith, false, if◌then◌else◌, inl, inr, ltb, none, refl,
  some, subst, sym, true, ℕ, ℤ, ◌∙◌, ◌≡◌, ◌≢◌, ◌⊎◌,
}
use multiagent_platform_v.Documents.{DecisionMemory}
use multiagent_platform_v.State.{CostInfo, InputData, RunStatus, Tool, UniversalState}
use multiagent_platform_v.Redis.{Key, Redis}
use multiagent_platform_v.Hitl.{HitlSettings, evaluate_confidence}
use multiagent_platform_v.Memory.{memory_ttl, save_decision_memory}
use multiagent_platform_v.Memory.Safety.{MemorySettings, no_prediction, save_actual_outcome_safe}
use multiagent_platform_v.Worker.{hitl_pending, is_done}
use multiagent_platform_v.SupplyChain.Checkpoint.{checkpoint_certain, checkpoint_uncertain}
use multiagent_platform_v.SupplyChain.World.{World, decision_of}
use multiagent_platform_v.SupplyChain.Sales.{product_of}
use multiagent_platform_v.SupplyChain.Tools.{run_tools_parallel}
use multiagent_platform_v.SupplyChain.Aggregator.{aggregate}
use multiagent_platform_v.SupplyChain.Decision.{
  finish, remember, run_decision_agent, select_tools, with_hitl, with_tools,
}
use multiagent_platform_v.SupplyChain.Orchestrator.{
  initial_state, merge_agent, merge_agents, run_graph, run_parallel,
}
use multiagent_platform_v.SupplyChain.Frame.{IsApart, run_tools-other, weather-other}
use multiagent_platform_v.SupplyChain.Pending.{IsDone, IsFailed, IsWaiting, run_graph-cases}

module _ (R : Redis) (settings : HitlSettings) (request_id : String) (world : World R)
    (now : ℕ) where
  abbrev pub memory_key : UniversalState → Key
  memory_key state = Key.last_decision state.tenant_id "supply_chain" (product_of state)

  -- the decision that is remembered of a result, in place of what was there
  abbrev pub remembered : UniversalState → Option DecisionMemory → Option DecisionMemory
  remembered result before =
      if is_done result.status
      then some (record {
        timestamp = now;
        recommendation = result.agent_outputs.sales_agent;
        confidence = evaluate_confidence result.aggregated_insights;
        actual_outcome = none;
        forecast_accuracy = none;
      })
      else before

  finish-remembers :
      (tools : List Tool) (answer : String ⊎ (String × CostInfo)) (state : UniversalState)
      (s : R.Db)
      → let (decided, t) = finish R world settings request_id now tools answer state s in
        R.peek t (memory_key state) 0 ≡ remembered decided.state (R.peek s (memory_key state) 0)
  unfolding finish with_hitl remember save_decision_memory
  finish-remembers tools (inl reason) state s = refl
  finish-remembers tools (inr (text, cost)) state s =
      elim (Bool-cases
        (ltb (evaluate_confidence state.aggregated_insights) settings.confidence_threshold)) [
          | inl uncertain ↦
              rw
                (
                  finish,
                  checkpoint_uncertain R settings request_id state.tenant_id "supply_chain" text
                      state.aggregated_insights now s uncertain,
                )
                (R.peek-store_ne (Key.hitl_approval request_id) (memory_key state) _ _ s 0
                  (ground arith))
          | inr certain ↦
              rw
                (
                  finish,
                  checkpoint_certain R settings request_id state.tenant_id "supply_chain" text
                      state.aggregated_insights now s certain,
                )
                (R.peek-store_self (memory_key state) _ (some memory_ttl) s 0)
        ]

  -- an analysis has not failed where the LLM answered
  answered-not_failed :
      (tools : List Tool) (answer : String × CostInfo) (state : UniversalState) (s : R.Db)
      → (finish R world settings request_id now tools (inr answer) state s).0.state.status
        ≢ RunStatus.error
  unfolding finish with_hitl
  answered-not_failed tools (text, cost) state s =
      elim (Bool-cases
        (ltb (evaluate_confidence state.aggregated_insights) settings.confidence_threshold)) [
          | inl uncertain ↦
              rw
                (
                  finish,
                  checkpoint_uncertain R settings request_id state.tenant_id "supply_chain" text
                      state.aggregated_insights now s uncertain,
                )
                (λ e. cc)
          | inr certain ↦
              rw
                (
                  finish,
                  checkpoint_certain R settings request_id state.tenant_id "supply_chain" text
                      state.aggregated_insights now s certain,
                )
                (λ e. cc)
        ]

  waiting-not_done :
      (result : UniversalState) (t : R.Db)
      → IsFailed result
        ⊎ (IsDone R settings request_id result ⊎ IsWaiting R settings request_id result t)
      → hitl_pending result ≡ true
      → is_done result.status ≡ false
  waiting-not_done result t (inl (status, text, calm)) waits = rw status refl
  waiting-not_done result t (inr (inl (status, certain, calm, text))) waits =
      absurd (ground (arith, calm, waits))
  waiting-not_done result t (inr (inr (status, uncertain, w, request, text, kept))) waits =
      rw status refl

  module _ (tenant_id sector : String) (input_data : InputData) where
    abbrev pub start : UniversalState
    start = initial_state tenant_id sector input_data

    pub run_graph-not_failed :
        (answer : String × CostInfo) (s : R.Db)
        → ((state : UniversalState) → decision_of world state ≡ inr answer)
        → (run_graph R world settings request_id now start s).0.status ≢ RunStatus.error
    unfolding run_graph run_decision_agent
    run_graph-not_failed answer s answers =
        let (collected, s1) = run_parallel R world now start s in
        let state = aggregate collected in
        let tools = select_tools (world.select state) in
        let selected = record state {
          agent_outputs = record state.agent_outputs { tools_selected = some tools };
        } in
        let (results, s2) = run_tools_parallel R world now tools selected s1 in
        let informed = with_tools tools results state in
        subst
          (λ found.
            (finish R world settings request_id now tools found informed s2).0.state.status
            ≢ RunStatus.error)
          (sym (answers informed)) (answered-not_failed tools answer informed s2)

    -- The call of the weather service and the breaker's circuit are apart from the product's
    -- memory. Then an analysis whose decision stands is remembered for its product, with the sales
    -- forecast and the confidence of the result; one that failed, and one that waits for a
    -- reviewer, leaves the memory of the product as it was.
    pub run_graph-remembers :
        (s : R.Db)
        → IsApart R world now (memory_key start)
        → let (result, t) = run_graph R world settings request_id now start s in
          R.peek t (memory_key start) 0 ≡ remembered result (R.peek s (memory_key start) 0)
    unfolding run_graph run_decision_agent with_tools aggregate run_parallel merge_agents
        merge_agent initial_state
    run_graph-remembers s apart =
        let (collected, s1) = run_parallel R world now start s in
        let state = aggregate collected in
        let tools = select_tools (world.select state) in
        let selected = record state {
          agent_outputs = record state.agent_outputs { tools_selected = some tools };
        } in
        let (results, s2) = run_tools_parallel R world now tools selected s1 in
        let informed = with_tools tools results state in
        let key = memory_key start in
        let (decided, t) =
          finish R world settings request_id now tools (decision_of world informed) informed s2 in
        finish-remembers tools (decision_of world informed) informed s2
        ∙ ap (remembered decided.state) (
            run_tools-other R world now key apart tools selected s1 0
            ∙ weather-other R world now key apart start s 0)

    -- A decision that a reviewer has to approve is never remembered: where nothing was known of
    -- the product, the call of the weather service and the breaker's circuit are apart from its
    -- memory, and nothing else is remembered for it since, the outcome finds no prediction and
    -- changes nothing.
    pub reviewed-unmatched :
        (s u : R.Db) (safety : MemorySettings) (actual_demand : ℤ) (later : ℕ)
        → IsApart R world now (memory_key start)
        → R.peek s (memory_key start) 0 ≡ none
        → hitl_pending (run_graph R world settings request_id now start s).0 ≡ true
        → R.peek u (memory_key start) 0
          ≡ R.peek (run_graph R world settings request_id now start s).1 (memory_key start) 0
        → save_actual_outcome_safe R tenant_id "supply_chain"
            (product_of start)
            safety
            actual_demand
            later
            u
          ≡ (no_prediction, u)
    unfolding save_actual_outcome_safe initial_state
    reviewed-unmatched s u safety actual_demand later apart unknown waits same =
        let (result, t) = run_graph R world settings request_id now start s in
        let ends = run_graph-cases R world settings request_id now tenant_id sector input_data s in
        let open_status = waiting-not_done result t ends waits in
        rw (save_actual_outcome_safe, same, run_graph-remembers s apart, open_status, unknown) refl
