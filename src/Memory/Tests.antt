-- ===== src/Memory/Tests.antt =====
-- Outcomes at a concrete decision, on a server in memory.
-- 1890 units were forecast
use multiagent_platform_v.Prelude.{false, none, pos, refl, round_ℕ, round_ℤ, some, ◌≡◌}
use multiagent_platform_v.State.{SalesOutput}
use multiagent_platform_v.Documents.{DecisionMemory}
use multiagent_platform_v.Redis.{Key}
use multiagent_platform_v.Redis.Memory.{empty, memory}
use multiagent_platform_v.Memory.{get_adjustment_factor, get_last_decision, memory_ttl}
use multiagent_platform_v.Memory.Safety.{
  MemorySettings, anomaly, outcome_compared, save_actual_outcome_safe, save_compared, saved,
}
use multiagent_platform_v.Memory.Outcomes.{Leaves, checked, save_actual_outcome_safe-Leaves}
use multiagent_platform_v.Memory.Damping.{IsDamped, saved-IsDamped}

abbrev forecast : SalesOutput
forecast = record {
  baseline_daily = pos 4500;
  total_30_days = pos 1350;
  adjusted_30_days = pos 1890;
  weather_multiplier = 140;
  memory_adjustment = 100;
  final_multiplier = 140;
  fallback = false;
}

abbrev decision : DecisionMemory
decision = record {
  timestamp = 100;
  recommendation = some forecast;
  confidence = 900;
  actual_outcome = none;
  forecast_accuracy = none;
}

abbrev remembered : memory.Db
remembered =
    memory.store (Key.last_decision "acme" "supply_chain" "HARISSA-140G") decision (some memory_ttl)
      empty

abbrev defaults : MemorySettings
defaults = record { accuracy_floor = 400; anomaly_threshold = 3000 }

recalled : get_last_decision memory "acme" "supply_chain" "HARISSA-140G" remembered ≡ some decision
recalled =
    memory.peek-store_self (Key.last_decision "acme" "supply_chain" "HARISSA-140G") decision
      (some memory_ttl) empty 0

-- 1 - 990 / 1890 is 0.476
poor :
    (save_actual_outcome_safe memory "acme" "supply_chain" "HARISSA-140G" defaults
      (pos 900)
      200
      remembered).0
    ≡ saved (some (pos 476))
unfolding save_actual_outcome_safe save_compared outcome_compared round_ℤ round_ℕ
poor = rw (save_actual_outcome_safe, recalled) refl

-- 1890 / 6000 is less than a third
odd :
    (save_actual_outcome_safe memory "acme" "supply_chain" "HARISSA-140G" defaults
      (pos 6000)
      200
      remembered).0
    ≡ anomaly (pos 6000) 1890
unfolding save_actual_outcome_safe save_compared
odd = rw (save_actual_outcome_safe, recalled) refl

save_actual_outcome_safe-Leaves_example :
    let (r, t) =
      checked memory "acme" "supply_chain" "HARISSA-140G" (pos 900) 200 defaults remembered in
    Leaves memory "acme" "supply_chain" "HARISSA-140G"
      (pos 900)
      200
      defaults
      (get_last_decision memory "acme" "supply_chain" "HARISSA-140G" remembered)
      r
      remembered
      t
save_actual_outcome_safe-Leaves_example =
    save_actual_outcome_safe-Leaves memory "acme" "supply_chain" "HARISSA-140G" (pos 900) 200
      defaults remembered

saved-IsDamped_example : IsDamped (
    get_adjustment_factor memory "acme" "supply_chain" "HARISSA-140G"
      (save_actual_outcome_safe memory "acme" "supply_chain" "HARISSA-140G" defaults
        (pos 900)
        200
        remembered).1)
saved-IsDamped_example =
    saved-IsDamped memory "acme" "supply_chain" "HARISSA-140G" defaults refl (pos 900) 200
      remembered (rw poor refl)
