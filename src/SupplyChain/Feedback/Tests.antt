-- ===== src/SupplyChain/Feedback/Tests.antt =====
-- An analysis that ends with a decision, and the outcome of its job some weeks later.
use multiagent_platform_v.Prelude.{
  arith, inl, inr, none, pos, refl, round_ℕ, round_ℤ, some, true, ◌≡◌,
}
use multiagent_platform_v.Documents.{Job, JobStatus}
use multiagent_platform_v.Redis.{Key}
use multiagent_platform_v.Redis.Memory.{empty, memory, peek-empty}
use multiagent_platform_v.Http.{respond}
use multiagent_platform_v.Llm.{call_llm, try_models}
use multiagent_platform_v.Erp.{get_sales_last_30_days}
use multiagent_platform_v.Memory.{accuracy_of, positive}
use multiagent_platform_v.Memory.Safety.{
  MemorySettings, no_prediction, save_actual_outcome_safe, saved,
}
use multiagent_platform_v.Memory.Answers.{answer_by}
use multiagent_platform_v.Jobs.{get_job, job_ttl}
use multiagent_platform_v.Rbac.{Tenant}
use multiagent_platform_v.Worker.{hitl_pending, is_done}
use multiagent_platform_v.Api.Outcomes.{OutcomeRequest, outcome_of, product_in, record_outcome}
use multiagent_platform_v.SupplyChain.Sales.{sales_of, sales_output}
use multiagent_platform_v.SupplyChain.Orchestrator.{initial_state, run_graph}
use multiagent_platform_v.SupplyChain.Pending.{run_graph-cases}
use multiagent_platform_v.SupplyChain.Remembered.{
  memory_key, remembered, reviewed-unmatched, run_graph-not_failed, run_graph-remembers,
}
use multiagent_platform_v.SupplyChain.Feedback.{forecast_of_analysis, record_outcome-compares}
use multiagent_platform_v.SupplyChain.Samples.{answered, lenient, order, settings, submitted, world}
use multiagent_platform_v.SupplyChain.Offline.{run_graph-offline}

abbrev acme : Tenant
acme = record {
  tenant_id = "acme";
  sector = "supply_chain";
  plan = none;
  role = some "analyst";
  user_id = none;
}

abbrev done_job : Job
done_job = record {
  job_id = "job-1";
  tenant_id = "acme";
  sector = "supply_chain";
  input_data = order;
  status = JobStatus.done;
  created_at = 90;
  updated_at = 110;
  result = none;
  failure = none;
  outcome = none;
}

abbrev defaults : MemorySettings
defaults = record { accuracy_floor = 400; anomaly_threshold = 3000 }

abbrev sold_1200 : OutcomeRequest
sold_1200 = record { actual_demand = pos 1200; action_taken = true; notes = none }

abbrev after : memory.Db
after = (run_graph memory world lenient "req-1" 100 submitted empty).1

abbrev lenient_key : Key
lenient_key = memory_key memory lenient "req-1" world 100 submitted

abbrev with_job : memory.Db
with_job = memory.store (Key.job "job-1") done_job (some job_ttl) after

decided : is_done (run_graph memory world lenient "req-1" 100 submitted empty).0.status ≡ true
unfolding call_llm try_models
decided =
    elim (run_graph-cases memory world lenient "req-1" 100 "acme" "supply_chain" order empty) [
      | inl (status, text, calm) ↦ absurd (
          run_graph-not_failed memory lenient "req-1" world 100 "acme" "supply_chain" order answered
            empty (λ state. refl) status)
      | inr (inl (status, certain, calm, text)) ↦ rw status refl
      | inr (inr (status, uncertain, w, request, text, kept)) ↦ absurd (ground (arith, uncertain))
    ]

forecast_1350 :
    positive
      (forecast_of_analysis memory lenient "req-1" world 100 acme "supply_chain"
        done_job).adjusted_30_days
    ≡ some 1350
unfolding sales_of sales_output round_ℤ round_ℕ get_sales_last_30_days initial_state
forecast_1350 = refl

-- 1 - 150 / 1350
compared_889 : answer_by defaults (pos 1200) 1350 ≡ saved (some (pos 889))
unfolding accuracy_of round_ℤ round_ℕ
compared_889 = refl

record_outcome-compares_example :
    let saving = answer_by defaults (pos 1200) 1350 in
    let outcome = outcome_of sold_1200 saving 2000000 in
    let (response, t) = record_outcome memory defaults acme "job-1" sold_1200 2000000 with_job in
    (response
      ≡ respond (record { product_id = product_in done_job; outcome = outcome; saving = saving }))
    × (get_job memory "job-1" t ≡ some (record done_job { outcome = some outcome }))
record_outcome-compares_example =
    record_outcome-compares memory lenient "req-1" world 100 acme "supply_chain" done_job defaults
      "job-1" sold_1200 2000000 empty with_job 1350
      (record { not_circuit = ground arith; fetch_apart = λ location s d. refl }) decided
      forecast_1350 refl
      (memory.peek-store_ne (Key.job "job-1") lenient_key done_job (some job_ttl) after 0
        (ground arith))
      (memory.peek-store_self (Key.job "job-1") done_job (some job_ttl) after 0) refl refl

abbrev product_key : Key
product_key = Key.last_decision "acme" "supply_chain" "HARISSA-140G"

run_graph-remembers_example :
    let (result, t) = run_graph memory world settings "req-1" 100 submitted empty in
    memory.peek t (memory_key memory settings "req-1" world 100 submitted) 0
    ≡ remembered memory settings "req-1" world 100 result
        (memory.peek empty (memory_key memory settings "req-1" world 100 submitted) 0)
run_graph-remembers_example =
    run_graph-remembers memory settings "req-1" world 100 "acme" "supply_chain" order empty
      (record { not_circuit = ground arith; fetch_apart = λ location s d. refl })

-- the ERP does not answer, so that a reviewer is asked
waits : hitl_pending (run_graph memory world settings "req-1" 100 submitted empty).0 ≡ true
unfolding call_llm try_models
waits =
    elim (run_graph-offline memory world settings "req-1" 100 "acme" "supply_chain" order empty refl
      refl).1 [
        | inl (status, text, calm) ↦ absurd (
            run_graph-not_failed memory settings "req-1" world 100 "acme" "supply_chain" order
              answered empty (λ state. refl) status)
        | inr (status, uncertain, w, request, text, kept) ↦ w
      ]

reviewed-unmatched_example :
    let t = (run_graph memory world settings "req-1" 100 submitted empty).1 in
    save_actual_outcome_safe memory "acme" "supply_chain" "HARISSA-140G"
      (record { accuracy_floor = 400; anomaly_threshold = 3000 })
      (pos 1200)
      90000
      t
    ≡ (no_prediction, t)
unfolding initial_state
reviewed-unmatched_example =
    reviewed-unmatched memory settings "req-1" world 100 "acme" "supply_chain" order empty
      (run_graph memory world settings "req-1" 100 submitted empty).1
      (record { accuracy_floor = 400; anomaly_threshold = 3000 }) (pos 1200) 90000
      (record { not_circuit = ground arith; fetch_apart = λ location s d. refl })
      (peek-empty product_key 0) waits refl
