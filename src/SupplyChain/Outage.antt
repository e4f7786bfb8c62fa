-- ===== src/SupplyChain/Outage.antt =====
-- The analysis when Groq answers for no model.
use multiagent_platform_v.SupplyChain.Checkpoint.{checkpoint_certain}
use multiagent_platform_v.SupplyChain.Tools.{run_tools_parallel}
use multiagent_platform_v.SupplyChain.Aggregator.{aggregate}
use multiagent_platform_v.SupplyChain.Decision.{
  finish, run_decision_agent, select_tools, with_hitl, with_tools,
}
use multiagent_platform_v.Prelude.{
  List, String, false, inl, inr, none, refl, some, subst, sym, ℕ, ◌≡◌, ◌⊎◌,
}
use multiagent_platform_v.State.{CostInfo, InputData, RunStatus, Tool, UniversalState}
use multiagent_platform_v.Redis.{Redis}
use multiagent_platform_v.Hitl.{HitlSettings}
use multiagent_platform_v.Llm.{call_llm, static_fallback, try_models, unavailable}
use multiagent_platform_v.SupplyChain.World.{World, decision_of}
use multiagent_platform_v.SupplyChain.Orchestrator.{initial_state, run_graph, run_parallel}
use multiagent_platform_v.SupplyChain.Pending.{is_uncertain}

module _ (R : Redis) (world : World R) (settings : HitlSettings) (request_id : String)
    (now : ℕ) where
  outage-decision :
      (reason : String)
      → world.client_error ≡ none
      → ((state : UniversalState) (model : String) → world.complete state model ≡ inl reason)
      → (state : UniversalState) → decision_of world state ≡ inr (static_fallback reason)
  unfolding call_llm try_models
  outage-decision reason client down state =
      let step = down state in
      rw
        (
          call_llm,
          client,
          try_models,
          step "llama-3.3-70b-versatile",
          try_models,
          step "llama-3.1-70b-versatile",
          try_models,
          step "gemma2-9b-it",
        )
        refl

  finish-certain :
      (tools : List Tool) (answer : String × CostInfo) (state : UniversalState) (s : R.Db)
      → is_uncertain R settings request_id
          (finish R world settings request_id now tools (inr answer) state s).0.state
        ≡ false
      → ((finish R world settings request_id now tools (inr answer) state s).0.state.status
          ≡ RunStatus.done)
        × ((finish R world settings request_id now tools
              (inr answer)
              state
              s).0.state.final_decision
            ≡ some answer.0)
  unfolding finish with_hitl
  finish-certain tools (text, cost) state s certain =
      rw
        (
          finish,
          checkpoint_certain R settings request_id state.tenant_id "supply_chain" text
              state.aggregated_insights now s certain,
        )
        (refl, refl)

  -- Groq answers for no model, but the client could be built, and the confidence reaches the
  -- threshold: then the job's analysis is done, not failed, and its final decision is the text that
  -- says that there is no recommendation.
  pub run_graph-outage :
      (tenant_id sector : String) (input_data : InputData) (reason : String) (s : R.Db)
      → world.client_error ≡ none
      → ((state : UniversalState) (model : String) → world.complete state model ≡ inl reason)
      → let (result, t) =
          run_graph R world settings request_id now (initial_state tenant_id sector input_data) s in
        is_uncertain R settings request_id result ≡ false
        → (result.status ≡ RunStatus.done) × (result.final_decision ≡ some (unavailable reason))
  unfolding run_graph run_decision_agent static_fallback
  run_graph-outage tenant_id sector input_data reason s client down certain =
      let (collected, s1) =
        run_parallel R world now (initial_state tenant_id sector input_data) s in
      let state = aggregate collected in
      let tools = select_tools (world.select state) in
      let selected = record state {
        agent_outputs = record state.agent_outputs { tools_selected = some tools };
      } in
      let (results, s2) = run_tools_parallel R world now tools selected s1 in
      let informed = with_tools tools results state in
      let ended : String ⊎ (String × CostInfo) → UniversalState =
        λ answer. (finish R world settings request_id now tools answer informed s2).0.state in
      subst
        (λ answer.
          is_uncertain R settings request_id (ended answer) ≡ false
          → ((ended answer).status ≡ RunStatus.done)
            × ((ended answer).final_decision ≡ some (unavailable reason)))
        (sym (outage-decision reason client down informed))
        (finish-certain tools (static_fallback reason) informed s2) certain
