-- ===== src/SupplyChain/Decision.antt =====
-- sectors/supply_chain/decision_agent.py. The prompts, and the memory that goes into them, are part
-- of the arguments that stand for the LLM; whether the decision is written to PostgreSQL for later
-- retrieval is returned as a flag.
use multiagent_platform_v.Prelude.{
  Bool, List, Option, String, [], false, format, get_or, if◌then◌else◌, inl, inr, none, not, some,
  true, ℕ, ◌&&◌, ◌++◌, ◌∷◌, ◌⊎◌,
}
use multiagent_platform_v.State.{
  AgentOutputs, CostInfo, HitlResult, RunStatus, Tool, UniversalState,
}
use multiagent_platform_v.Redis.{Redis}
use multiagent_platform_v.Memory.{save_decision_memory}
use multiagent_platform_v.Hitl.{HitlSettings, ReviewRequest, hitl_checkpoint}
use multiagent_platform_v.SupplyChain.World.{World, decision_of}
use multiagent_platform_v.SupplyChain.Tools.{
  ToolResult, available_tools, production_result, rag_error, rag_result, run_tools_parallel,
  sales_result, tool_of, weather_result,
}

-- `[t for t in tools if t in AVAILABLE_TOOL_NAMES]`

abbrev pub valid_tools : List String → List Tool
valid_tools [] = []
valid_tools (name ∷ names) =
    let rest = valid_tools names in elim (tool_of name) [ none ↦ rest | some tool ↦ tool ∷ rest ]

abbrev pub or_all : List Tool → List Tool
or_all [] = available_tools
or_all (tool ∷ tools) = tool ∷ tools

-- `_select_tools`: all of them where the answer is no use
unfoldable pub select_tools : Option (Option (List String)) → List Tool
select_tools none = available_tools
select_tools (some none) = available_tools
select_tools (some (some names)) = or_all (valid_tools names)

-- one round of the loop over the results; `rag_context` so far, outputs and errors
abbrev pub Merged : Type 0
Merged = String × AgentOutputs × List String

unfoldable pub merge_result : ToolResult → Merged → Merged
merge_result (weather_result output) (rag, outputs, errors) =
    (rag, record outputs { weather_agent = output }, errors)
merge_result (sales_result output) (rag, outputs, errors) =
    (rag, record outputs { sales_agent = output }, errors)
merge_result (production_result output) (rag, outputs, errors) =
    (rag, record outputs { production_agent = output }, errors)
merge_result (rag_result context) (rag, outputs, errors) = (context, outputs, errors)
merge_result (rag_error reason) (rag, outputs, errors) =
    (rag, outputs, errors ++ format ("Tool rag_tool: " ∷ reason ∷ []) ∷ [])

unfoldable pub merge_results : List ToolResult → Merged → Merged
unfolding merge_result
merge_results [] m = m
merge_results (result ∷ results) m = merge_results results (merge_result result m)

-- steps 1 and 2
unfoldable pub with_tools : List Tool → List ToolResult → UniversalState → UniversalState
unfolding merge_results
with_tools tools results state =
    let start = record state.agent_outputs { tools_selected = some tools } in
    let (rag, outputs, errors) =
      merge_results results ("No historical context available.", start, state.errors) in
    record state { agent_outputs = record outputs { rag_context = some rag }; errors = errors }

abbrev pub is_pending : HitlResult → Bool
is_pending hitl = hitl.pending

-- steps 6 and 7: the outcome of the checkpoint in the state
unfoldable pub with_hitl : HitlResult → UniversalState → UniversalState
with_hitl hitl state = record state {
  agent_outputs = record state.agent_outputs { hitl = some hitl };
  status =
      if hitl.pending
      then RunStatus.pending_human
      else if hitl.approved
      then RunStatus.done
      else RunStatus.rejected;
  final_decision = if hitl.pending then none else hitl.final_decision;
}

-- what the agent leaves: the state, the request for a reviewer, and whether the decision is stored
-- for later retrieval
pub record Decided : Type 0 where
  pub state : UniversalState
  pub review : Option ReviewRequest
  pub stored : Bool

abbrev pub is_some {ℓ} : {A : Type ℓ} → Option A → Bool
is_some none = false
is_some (some _) = true

module _ (R : Redis) (world : World R) (settings : HitlSettings) (request_id : String)
    (now : ℕ) where
  -- the end of step 7: a decision that waits for a reviewer is not remembered
  unfoldable pub remember : HitlResult → UniversalState → R.Db → R.Db
  remember hitl state s =
      if hitl.pending
      then s
      else save_decision_memory R state.tenant_id "supply_chain"
          (get_or state.input_data.product_id "DEFAULT") state.agent_outputs.sales_agent
          hitl.confidence now s

  -- what follows step 5: the text of the LLM's exception, or the decision and its cost
  unfoldable pub finish :
      List Tool → String ⊎ (String × CostInfo) → UniversalState → R.Db → Decided × R.Db
  unfolding with_hitl remember
  finish tools (inl reason) state s = (
    record {
      state = record state {
        errors = state.errors ++ format ("DecisionAgent LLM: " ∷ reason ∷ []) ∷ [];
        final_decision = some "Error generating recommendation.";
        status = RunStatus.error;
      };
      review = none;
      stored = false;
    },
    s,
  )
  finish tools (inr (text, cost)) state s =
      let decided = record state {
        agent_outputs = record state.agent_outputs {
          decision_cost = some cost;
          decision_text = some text;
          tools_called = some tools;
        };
      } in
      let (hitl, review, s') =
        hitl_checkpoint R settings request_id state.tenant_id "supply_chain" text
          state.aggregated_insights now s in
      (
        record {
          state = with_hitl hitl decided;
          review = review;
          stored = not hitl.pending && (hitl.approved && is_some state.aggregated_insights);
        },
        remember hitl state s',
      )

  unfoldable pub run_decision_agent : UniversalState → R.Db → Decided × R.Db
  unfolding select_tools with_tools finish
  run_decision_agent state s =
      let tools = select_tools (world.select state) in
      let selected = record state {
        agent_outputs = record state.agent_outputs { tools_selected = some tools };
      } in
      let (results, s') = run_tools_parallel R world now tools selected s in
      let informed = with_tools tools results state in
      finish tools (decision_of world informed) informed s'
