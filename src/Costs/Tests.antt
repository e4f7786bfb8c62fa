-- ===== src/Costs/Tests.antt =====
-- Costs at concrete amounts, on a server in memory.
use multiagent_platform_v.Prelude.{List, [], refl, true, ℕ, ◌∷◌, ◌≡◌}
use multiagent_platform_v.Costs.{
  CostSettings, alerts_for, daily_limit_exceeded, request_limit_exceeded,
}

abbrev settings : CostSettings
settings = record {
  request_limit = 500000;
  daily_limit = 10000000;
  monthly_limit = 100000000;
  has_webhook = true;
}

-- 0.60 and 9.60 dollars: two of the limits
two_alerts :
    alerts_for settings 600000 10200000 10200000
    ≡ record { type = request_limit_exceeded; value = 600000; limit = 500000 }
      ∷ record { type = daily_limit_exceeded; value = 10200000; limit = 10000000 }
      ∷ []
unfolding alerts_for
two_alerts = refl

-- two amounts, an hour apart
abbrev costs : List (ℕ × ℕ)
costs = (0, 9000000) ∷ (3600, 600000) ∷ []
