-- ===== src/Kpis/Tests.antt =====
-- A report on one decision.
use multiagent_platform_v.Documents.{DecisionEntry}
use multiagent_platform_v.Kpis.Report.{report_of}
use multiagent_platform_v.Kpis.Bounds.{counted_all, report_of_bounds}
use multiagent_platform_v.Prelude.{[], arith, false, none, pos, some, ◌∷◌, ◌≡◌, ◌≤◌}

-- one decision, with an error
abbrev decided : DecisionEntry
decided = record {
  job_id = "job-1";
  timestamp = 100;
  outcome = record {
    forecast_accuracy = some (pos 920);
    requires_human = false;
    errors = "weather failed" ∷ [];
    urgency = some "HIGH";
    status = none;
    latency_seconds = some 152;
  };
}

report_of_bounds_example :
    let r = report_of 5000 (decided ∷ []) (9000 ∷ []) in
    (r.success_rate ≤ 1000)
    × (r.hitl_rate ≤ 1000)
    × (666 ≤ r.agent_reliability)
    × (r.agent_reliability ≤ 1000)
    × (counted_all r.urgency_distribution ≡ r.total_decisions)
report_of_bounds_example = report_of_bounds 5000 (decided ∷ []) (9000 ∷ []) (omega arith)
