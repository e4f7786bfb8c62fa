-- ===== src/SupplyChain/Pending.antt =====
-- How the analysis of the supply chain ends.
use multiagent_platform_v.SupplyChain.Orchestrator.{
  initial_state, merge_agent, merge_agents, merge_outputs, run_graph, run_parallel,
}
use multiagent_platform_v.Prelude.{
  Bool, Bool-cases, List, String, [], false, format, inl, inr, ltb, none, refl, some, true, ℕ, ◌++◌,
  ◌∙◌, ◌∷◌, ◌≡◌, ◌⊎◌,
}
use multiagent_platform_v.State.{CostInfo, InputData, RunStatus, Tool, UniversalState}
use multiagent_platform_v.Documents.{pending}
use multiagent_platform_v.SupplyChain.Sales.{run_sales_agent}
use multiagent_platform_v.SupplyChain.Production.{run_production_agent}
use multiagent_platform_v.SupplyChain.Tools.{
  ToolResult, production_result, rag_error, rag_result, run_tools_parallel, sales_result,
  weather_result,
}
use multiagent_platform_v.SupplyChain.Aggregator.{aggregate}
use multiagent_platform_v.Redis.{Key, Redis, within}
use multiagent_platform_v.Hitl.{HitlSettings, evaluate_confidence}
use multiagent_platform_v.Worker.{hitl_pending, hitl_request}
use multiagent_platform_v.SupplyChain.Checkpoint.{checkpoint_certain, checkpoint_uncertain}
use multiagent_platform_v.SupplyChain.World.{World, decision_of}
use multiagent_platform_v.SupplyChain.Weather.{
  Outcome, failed, forecast, run_weather_agent, with_weather,
}
use multiagent_platform_v.SupplyChain.Decision.{
  Merged, finish, merge_result, merge_results, run_decision_agent, select_tools, with_hitl,
  with_tools,
}

-- the LLM raised: an error, and nobody is asked

abbrev pub IsFailed : UniversalState → Type 0
IsFailed result =
    (result.status ≡ RunStatus.error)
    × (result.final_decision ≡ some "Error generating recommendation.")
    × (hitl_pending result ≡ false)

module _ (R : Redis) (settings : HitlSettings) (request_id : String) where
  abbrev pub is_uncertain : UniversalState → Bool
  is_uncertain result =
      ltb (evaluate_confidence result.aggregated_insights) settings.confidence_threshold

  -- the decision stands
  abbrev pub IsDone : UniversalState → Type 0
  IsDone result =
      (result.status ≡ RunStatus.done)
      × (is_uncertain result ≡ false)
      × (hitl_pending result ≡ false)
      × (result.final_decision ≡ result.agent_outputs.decision_text)

  -- a reviewer is asked, under an id that is in the result, and has until the timeout
  abbrev pub IsWaiting : UniversalState → R.Db → Type 0
  IsWaiting result t =
      (result.status ≡ RunStatus.pending_human)
      × (is_uncertain result ≡ true)
      × (hitl_pending result ≡ true)
      × (hitl_request result ≡ some request_id)
      × (result.final_decision ≡ none)
      × ((d : ℕ)
          → R.peek t (Key.hitl_approval request_id) d
            ≡ within (some settings.timeout_seconds) d pending)

  -- by what the second LLM call gave for the state that it was asked about: the text of its
  -- exception, or a decision
  abbrev pub EndsBy : String ⊎ (String × CostInfo) → (asked result : UniversalState) → R.Db → Type 0
  EndsBy (inl reason) asked result t =
      IsFailed result
      × (result.errors ≡ asked.errors ++ format ("DecisionAgent LLM: " ∷ reason ∷ []) ∷ [])
  EndsBy (inr (text, cost)) asked result t =
      (IsDone result × (result.final_decision ≡ some text))
      ⊎ (IsWaiting result t × (result.agent_outputs.decision_text ≡ some text))

  EndsBy-cases :
      (answer : String ⊎ (String × CostInfo)) (asked result : UniversalState) (t : R.Db)
      → EndsBy answer asked result t
      → IsFailed result ⊎ (IsDone result ⊎ IsWaiting result t)
  EndsBy-cases (inl reason) asked result t ended = inl ended.0
  EndsBy-cases (inr answer) asked result t (inl ended) = inr (inl ended.0)
  EndsBy-cases (inr answer) asked result t (inr ended) = inr (inr ended.0)

  module _ (world : World R) (now : ℕ) where
    finish-ends :
        (tools : List Tool) (answer : String ⊎ (String × CostInfo)) (state : UniversalState)
        (s : R.Db)
        → state.agent_outputs.hitl ≡ none
        → let (decided, t) = finish R world settings request_id now tools answer state s in
          EndsBy answer state decided.state t
    unfolding finish with_hitl
    finish-ends tools (inl reason) state s fresh = ((refl, refl, rw fresh refl), refl)
    finish-ends tools (inr (text, cost)) state s fresh =
        elim (Bool-cases
          (ltb (evaluate_confidence state.aggregated_insights) settings.confidence_threshold)) [
            | inl uncertain ↦ inr (
                rw
                  (
                    finish,
                    checkpoint_uncertain R settings request_id state.tenant_id "supply_chain" text
                        state.aggregated_insights now s uncertain,
                  )
                  (
                    (
                      refl,
                      uncertain,
                      refl,
                      refl,
                      refl,
                      λ d.
                          R.peek-store_self (Key.hitl_approval request_id) pending
                            (some settings.timeout_seconds) s d,
                    ),
                    refl,
                  ))
            | inr certain ↦ inl (
                rw
                  (
                    finish,
                    checkpoint_certain R settings request_id state.tenant_id "supply_chain" text
                        state.aggregated_insights now s certain,
                  )
                  ((refl, certain, refl, refl), refl))
          ]

with_weather-hitl :
    (state : UniversalState) (o : Outcome)
    → (with_weather state o).agent_outputs.hitl ≡ state.agent_outputs.hitl
unfolding with_weather
with_weather-hitl state (failed reason) = refl
with_weather-hitl state (forecast output) = refl

merge_result-hitl : (r : ToolResult) (m : Merged) → (merge_result r m).1.hitl ≡ m.1.hitl
unfolding merge_result
merge_result-hitl (weather_result output) m = refl
merge_result-hitl (sales_result output) m = refl
merge_result-hitl (production_result output) m = refl
merge_result-hitl (rag_result context) m = refl
merge_result-hitl (rag_error reason) m = refl

merge_results-hitl : (rs : List ToolResult) (m : Merged) → (merge_results rs m).1.hitl ≡ m.1.hitl
unfolding merge_results
merge_results-hitl [] m = refl
merge_results-hitl (r ∷ rs) m = merge_results-hitl rs (merge_result r m) ∙ merge_result-hitl r m

module _ (R : Redis) (world : World R) (settings : HitlSettings) (request_id : String)
    (now : ℕ) where
  parallel-hitl :
      (tenant_id sector : String) (input_data : InputData) (s : R.Db)
      → (run_parallel R world now
          (initial_state tenant_id sector input_data)
          s).0.agent_outputs.hitl
        ≡ none
  unfolding run_parallel merge_agents merge_agent merge_outputs run_sales_agent run_production_agent
      run_weather_agent initial_state
  parallel-hitl tenant_id sector input_data s = rw with_weather-hitl refl

  -- the state about which the LLM is asked: the agents' outputs, the insights, and what the tools
  -- that it selected have added
  abbrev pub asked : (tenant_id sector : String) → InputData → R.Db → UniversalState
  asked tenant_id sector input_data s =
      let (collected, s1) =
        run_parallel R world now (initial_state tenant_id sector input_data) s in
      let state = aggregate collected in
      let tools = select_tools (world.select state) in
      let selected = record state {
        agent_outputs = record state.agent_outputs { tools_selected = some tools };
      } in
      with_tools tools (run_tools_parallel R world now tools selected s1).0 state

  -- How the analysis of the supply chain ends, from its initial state, is decided by the second call
  -- of the LLM, for the state that it is asked about, and by the confidence. The LLM raised: the
  -- status is error, with a fixed text in place of the decision, nobody is asked, and the text of the
  -- exception is the last of the errors. It gave a decision and the confidence reaches the
  -- threshold: done, with that text as the final decision. It gave a decision and the confidence is
  -- below the threshold: the result has that text and no final decision, and waits for a reviewer
  -- under a request that it names and that stays pending until the timeout.
  pub run_graph-ends :
      (tenant_id sector : String) (input_data : InputData) (s : R.Db)
      → let informed = asked tenant_id sector input_data s in
        let (result, t) =
          run_graph R world settings request_id now (initial_state tenant_id sector input_data) s in
        EndsBy R settings request_id (decision_of world informed) informed result t
  unfolding run_graph run_decision_agent with_tools aggregate
  run_graph-ends tenant_id sector input_data s =
      let (collected, s1) =
        run_parallel R world now (initial_state tenant_id sector input_data) s in
      let state = aggregate collected in
      let tools = select_tools (world.select state) in
      let start = record state.agent_outputs { tools_selected = some tools } in
      let selected = record state { agent_outputs = start } in
      let (results, s2) = run_tools_parallel R world now tools selected s1 in
      let informed = with_tools tools results state in
      finish-ends R settings request_id world now tools (decision_of world informed) informed s2 (
        merge_results-hitl results ("No historical context available.", start, state.errors)
        ∙ parallel-hitl tenant_id sector input_data s)

  pub run_graph-cases :
      (tenant_id sector : String) (input_data : InputData) (s : R.Db)
      → let (result, t) =
          run_graph R world settings request_id now (initial_state tenant_id sector input_data) s in
        IsFailed result
        ⊎ (IsDone R settings request_id result ⊎ IsWaiting R settings request_id result t)
  run_graph-cases tenant_id sector input_data s =
      let informed = asked tenant_id sector input_data s in
      let (result, t) =
        run_graph R world settings request_id now (initial_state tenant_id sector input_data) s in
      EndsBy-cases R settings request_id (decision_of world informed) informed result t
        (run_graph-ends tenant_id sector input_data s)
