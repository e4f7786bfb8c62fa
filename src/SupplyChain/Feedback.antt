-- ===== src/SupplyChain/Feedback.antt =====
-- From an analysis to the outcome of its job: what a client that sends the demand is answered.
mod Tests
use multiagent_platform_v.Prelude.{
  Bool, Option, String, ap, if◌then◌else◌, none, some, subst, sym, true, ℕ, ◌∙◌, ◌≡◌,
}
use multiagent_platform_v.State.{SalesOutput, UniversalState}
use multiagent_platform_v.Documents.{DecisionMemory, Job}
use multiagent_platform_v.Redis.{Key, Redis}
use multiagent_platform_v.Http.{respond}
use multiagent_platform_v.Hitl.{HitlSettings, evaluate_confidence}
use multiagent_platform_v.Memory.{positive}
use multiagent_platform_v.Memory.Safety.{MemorySettings}
use multiagent_platform_v.Memory.Answers.{answer_by, save_actual_outcome_safe_answer}
use multiagent_platform_v.Jobs.{get_job}
use multiagent_platform_v.Rbac.{Tenant}
use multiagent_platform_v.Worker.{is_done}
use multiagent_platform_v.Api.Outcomes.{
  OutcomeRequest, is_completed, outcome_of, product_in, record_outcome,
}
use multiagent_platform_v.Api.Recording.{compared, record_outcome-records}
use multiagent_platform_v.SupplyChain.World.{World}
use multiagent_platform_v.SupplyChain.Sales.{product_of}
use multiagent_platform_v.SupplyChain.Orchestrator.{initial_state, run_graph}
use multiagent_platform_v.SupplyChain.Isolation.{run_graph-unadjusted, unadjusted_sales}
use multiagent_platform_v.SupplyChain.Frame.{IsApart}
use multiagent_platform_v.SupplyChain.Remembered.{memory_key, run_graph-remembers}

module _ (R : Redis) (hitl : HitlSettings) (request_id : String) (world : World R) (now : ℕ)
    (tenant : Tenant) (sector : String) (job : Job) where
  abbrev pub analysed_state : UniversalState
  analysed_state = initial_state tenant.tenant_id sector job.input_data

  abbrev pub finished_graph : R.Db → UniversalState × R.Db
  finished_graph s = run_graph R world hitl request_id now analysed_state s

  -- the forecast that the analysis is known to make
  abbrev pub forecast_of_analysis : SalesOutput
  forecast_of_analysis = unadjusted_sales R world now (product_of analysed_state)

  abbrev pub memory_of : UniversalState → DecisionMemory
  memory_of result = record {
    timestamp = now;
    recommendation = some forecast_of_analysis;
    confidence = evaluate_confidence result.aggregated_insights;
    actual_outcome = none;
    forecast_accuracy = none;
  }

  stored_forecast :
      (s : R.Db)
      → IsApart R world now (memory_key R hitl request_id world now analysed_state)
      → is_done (finished_graph s).0.status ≡ true
      → R.peek (finished_graph s).1 (memory_key R hitl request_id world now analysed_state) 0
        ≡ some (memory_of (finished_graph s).0)
  stored_forecast s apart decided =
      let (result, t) = finished_graph s in
      let before = R.peek s (memory_key R hitl request_id world now analysed_state) 0 in
      let kept = λ (o : Option SalesOutput) (b : Bool).
        if b then some (record (memory_of result) { recommendation = o }) else before in
      run_graph-remembers R hitl request_id world now tenant.tenant_id sector job.input_data s apart
      ∙ ap (kept result.agent_outputs.sales_agent) decided
      ∙ ap (λ o. kept o true)
          (run_graph-unadjusted R world hitl request_id now tenant.tenant_id sector job.input_data
            s).0

  module _ (safety : MemorySettings) (job_id : String) (body : OutcomeRequest) (later : ℕ)
      (s u : R.Db) where
    -- A tenant of the supply chain has had an analysis whose decision stands and whose forecast is
    -- above 0, with a weather service and a breaker's circuit that are apart from the product's
    -- memory; its own job with that input is completed, and no other decision for the product is
    -- remembered since. Then POST /outcomes for the job compares the demand with that analysis's
    -- own forecast, answers with what the comparison comes to, an anomaly, a reset or the
    -- accuracy, and puts that accuracy into the job.
    pub record_outcome-compares :
        (predicted : ℕ)
        → IsApart R world now (memory_key R hitl request_id world now analysed_state)
        → is_done (finished_graph s).0.status ≡ true
        → positive forecast_of_analysis.adjusted_30_days ≡ some predicted
        → tenant.sector ≡ "supply_chain"
        → R.peek u (memory_key R hitl request_id world now analysed_state) 0
          ≡ R.peek (finished_graph s).1 (memory_key R hitl request_id world now analysed_state) 0
        → get_job R job_id u ≡ some job
        → job.tenant_id ≡ tenant.tenant_id
        → is_completed job.status ≡ true
        → let saving = answer_by safety body.actual_demand predicted in
          let outcome = outcome_of body saving later in
          let (response, t) = record_outcome R safety tenant job_id body later u in
          (response
            ≡ respond (record { product_id = product_in job; outcome = outcome; saving = saving }))
          × (get_job R job_id t ≡ some (record job { outcome = some outcome }))
    unfolding initial_state
    record_outcome-compares predicted apart decided forecast supply same stored mine over =
        let memory = memory_of (finished_graph s).0 in
        let recalled = same ∙ stored_forecast s apart decided in
        let at_sector = λ (name : String).
          R.peek u (Key.last_decision tenant.tenant_id name (product_in job)) 0 ≡ some memory in
        let compares : (compared R safety tenant job_id body later u job).0
            ≡ answer_by safety body.actual_demand predicted =
          save_actual_outcome_safe_answer R tenant.tenant_id tenant.sector (product_in job) safety
            body.actual_demand later memory predicted u (subst at_sector (sym supply) recalled)
            forecast in
        let (answered, kept, rest) =
          record_outcome-records R safety tenant job_id body later u job stored mine over in
        (
          answered
              ∙ ap
                  (λ saving. respond (record {
                    product_id = product_in job;
                    outcome = outcome_of body saving later;
                    saving = saving;
                  }))
                  compares,
          kept
              ∙ ap (λ saving. some (record job { outcome = some (outcome_of body saving later) }))
                  compares,
        )
