-- ===== src/Costs/Totals.antt =====
-- The counters are the sums of what was spent, as long as they do not expire.
use multiagent_platform_v.Prelude.{List, Option, String, [], get_or, ℕ, ◌+◌, ◌<◌, ◌∷◌, ◌≡◌}
use multiagent_platform_v.Redis.{Key, Redis}
use multiagent_platform_v.Costs.{CostSettings, daily_ttl, monthly_ttl, track_cost}

-- the abstract view: the sum of the amounts

abbrev pub spent : List (ℕ × ℕ) → ℕ
spent [] = 0
spent ((pause, cost) ∷ costs) = cost + spent costs

-- the time that passes before each amount
abbrev pub IsSteady : (limit : ℕ) → List (ℕ × ℕ) → Type 0
IsSteady limit [] = Unit
IsSteady limit ((pause, cost) ∷ costs) = (pause < limit) × IsSteady limit costs

module _ (R : Redis) (tenant_id : String) (day month : ℕ) (settings : CostSettings)
    (sector : String) (job_id : Option String) where
  abbrev pub tracked : ℕ → R.Db → R.Db
  tracked cost s = (track_cost R tenant_id day month settings sector cost job_id s).2

  -- each amount is tracked after a pause
  abbrev pub track_all : List (ℕ × ℕ) → R.Db → R.Db
  track_all [] s = s
  track_all ((pause, cost) ∷ costs) s = track_all costs (tracked cost (R.elapse pause s))

  abbrev pub daily_key : Key
  daily_key = Key.cost_daily tenant_id day

  abbrev pub monthly_key : Key
  monthly_key = Key.cost_monthly tenant_id month

  -- the two counters hold these totals until they expire
  pub record Holds (daily monthly : ℕ) (s : R.Db) : Type 0 where
    pub daily_held : (d : ℕ) → d < daily_ttl → get_or (R.peek s daily_key d) 0 ≡ daily
    pub monthly_held : (d : ℕ) → d < monthly_ttl → get_or (R.peek s monthly_key d) 0 ≡ monthly
