-- ===== src/SupplyChain/Tests.antt =====
-- The agents at concrete inputs, on a server in memory.
use multiagent_platform_v.Prelude.{
  arith, false, inr, not, pos, refl, round_ℕ, round_ℤ, some, true, ◌≡◌, ◌⊎◌,
}
use multiagent_platform_v.State.{AgentOutputs, RunStatus, no_outputs}
use multiagent_platform_v.Redis.Memory.{empty, memory}
use multiagent_platform_v.SupplyChain.World.{decision_of}
use multiagent_platform_v.Llm.{unavailable}
use multiagent_platform_v.SupplyChain.Outage.{run_graph-outage}
use multiagent_platform_v.SupplyChain.Samples.{lenient, no_llm, order, settings, submitted, world}
use multiagent_platform_v.SupplyChain.Graph.{
  load_agent_fn, own_aggregator, run_graph-walks, supply_state,
}
use multiagent_platform_v.Orchestrator.{Graph, build_orchestrator, built}
use multiagent_platform_v.Orchestrator.Walk.{walk}
use multiagent_platform_v.Registry.{get_sector_agents}
use multiagent_platform_v.SupplyChain.Sales.{product_of, sales_of, sales_output}
use multiagent_platform_v.SupplyChain.Production.{production_of, production_output}
use multiagent_platform_v.SupplyChain.Aggregator.{insights_of}
use multiagent_platform_v.SupplyChain.Alerts.{
  alerts_by, days_below, reports, insights_of-alerts, urgency_by,
}
use multiagent_platform_v.SupplyChain.Isolation.{IsIsolated, run_graph-unadjusted}
use multiagent_platform_v.SupplyChain.Pending.{EndsBy, IsFailed, IsWaiting, asked, run_graph-ends}
use multiagent_platform_v.SupplyChain.Offline.{empty_production, run_graph-offline}
use multiagent_platform_v.SupplyChain.Orchestrator.{initial_state, run_graph}
use multiagent_platform_v.Documents.{Job}
use multiagent_platform_v.Redis.{Key}
use multiagent_platform_v.Jobs.{job_ttl, new_job}
use multiagent_platform_v.Worker.{Task}

-- 1350 units sold in thirty days, 180 in stock
sold : sales_of (some (pos 1350)) 140 ≡ record {
  baseline_daily = pos 4500;
  total_30_days = pos 1350;
  adjusted_30_days = pos 1890;
  weather_multiplier = 140;
  memory_adjustment = 100;
  final_multiplier = 140;
  fallback = false;
}
unfolding sales_of sales_output round_ℤ round_ℕ
sold = refl

-- 180 units at 45 a day are 4.0 days, 5000 are 111.1
produced : production_of (some (pos 180)) (pos 4500) ≡ record {
  daily_capacity = 150;
  current_stock = pos 180;
  packaging_stock = 5000;
  daily_demand_forecast = pos 4500;
  days_of_stock = pos 40;
  days_of_packaging = pos 1111;
  capacity_gap = pos 1050;
  can_meet_demand = true;
  reorder_needed = false;
  lead_time_days = 5;
  fallback = false;
}
unfolding production_of production_output round_ℤ round_ℕ
produced = refl

abbrev outputs : AgentOutputs
outputs = record no_outputs { production_agent = some (production_of (some (pos 180)) (pos 4500)) }

insights_of-alerts_example :
    let production = outputs.production_agent in
    let heat = reports (λ output. output.heat_wave) outputs.weather_agent in
    let critical = days_below 50 production in
    let short = days_below 100 production in
    let packaging = reports (λ output. output.reorder_needed) production in
    let insufficient = reports (λ output. not output.can_meet_demand) production in
    ((insights_of outputs).alerts ≡ alerts_by critical short packaging insufficient heat)
    × ((insights_of outputs).urgency ≡ urgency_by critical short packaging insufficient)
insights_of-alerts_example = insights_of-alerts outputs

run_graph-unadjusted_example :
    let state = initial_state "acme" "supply_chain" order in
    let (result, t) = run_graph memory world settings "req-1" 100 state empty in
    IsIsolated memory world 100 (product_of state) result.agent_outputs
run_graph-unadjusted_example =
    run_graph-unadjusted memory world settings "req-1" 100 "acme" "supply_chain" order empty

run_graph-ends_example :
    let informed = asked memory world settings "req-1" 100 "acme" "supply_chain" order empty in
    let state = initial_state "acme" "supply_chain" order in
    let (result, t) = run_graph memory world settings "req-1" 100 state empty in
    EndsBy memory settings "req-1" (decision_of world informed) informed result t
run_graph-ends_example =
    run_graph-ends memory world settings "req-1" 100 "acme" "supply_chain" order empty

run_graph-offline_example :
    let state = initial_state "acme" "supply_chain" order in
    let (result, t) = run_graph memory world settings "req-1" 100 state empty in
    (result.agent_outputs.production_agent ≡ some empty_production)
    × (IsFailed result ⊎ IsWaiting memory settings "req-1" result t)
run_graph-offline_example =
    run_graph-offline memory world settings "req-1" 100 "acme" "supply_chain" order empty refl refl

run_graph-outage_example :
    let state = initial_state "acme" "supply_chain" order in
    let (result, t) = run_graph memory no_llm lenient "req-1" 100 state empty in
    (result.status ≡ RunStatus.done) × (result.final_decision ≡ some (unavailable "rate limit"))
run_graph-outage_example =
    run_graph-outage memory no_llm lenient "req-1" 100 "acme" "supply_chain" order "rate limit"
      empty refl (λ state model. refl) (ground arith)

abbrev task : Task
task = record { job_id = "job-1"; tenant_id = "acme"; sector = "supply_chain"; input_data = order }

abbrev job : Job
job = new_job "job-1" "acme" "supply_chain" order 100

abbrev queued : memory.Db
queued = memory.store (Key.job "job-1") job (some job_ttl) empty

run_graph-walks_example :
    let A = supply_state memory in
    (g : Graph A) × (build_orchestrator A
        (load_agent_fn memory world settings "req-1" 100)
        own_aggregator
        "supply_chain"
        (get_sector_agents "supply_chain")
      ≡ built g)
    × (walk A 4 g g.entry submitted empty
        ≡ some (
            let (result, t) = run_graph memory world settings "req-1" 100 submitted empty in
            (inr result, t)))
run_graph-walks_example = run_graph-walks memory world settings "req-1" 100 0 submitted empty
