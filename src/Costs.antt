-- ===== src/Costs.antt =====
-- core/cost_alerting.py: what a tenant has spent on a day and in a month. Amounts are in millionths
-- of a dollar; a day and a month are numbers, and the program's clock says both. Nothing calls
-- `track_cost`.
pub mod Totals
mod Tests
use multiagent_platform_v.Prelude.{
  Bool, List, Option, String, [], get_or, if◌then◌else◌, ltb, map, none, round_ℕ, some, ℕ, ◌++◌,
  ◌+◌, ◌-◌, ◌∷◌,
}
use multiagent_platform_v.Redis.{Key, Redis}
use multiagent_platform_v.Redis.Commands.{get}

-- COST_REQUEST_LIMIT, COST_DAILY_LIMIT, COST_MONTHLY_LIMIT, and whether COST_ALERT_WEBHOOK is set

pub record CostSettings : Type 0 where
  pub request_limit : ℕ
  pub daily_limit : ℕ
  pub monthly_limit : ℕ
  pub has_webhook : Bool

pub data AlertType : Type 0 where
  request_limit_exceeded daily_limit_exceeded monthly_limit_exceeded : AlertType

pub record CostAlert : Type 0 where
  pub type : AlertType
  pub value : ℕ
  pub limit : ℕ

-- `if value > limit: alerts.append(...)`
abbrev pub alert_over : AlertType → (value limit : ℕ) → List CostAlert
alert_over type value limit =
    if ltb limit value then record { type = type; value = value; limit = limit } ∷ [] else []

unfoldable pub alerts_for : CostSettings → (cost daily_total monthly_total : ℕ) → List CostAlert
alerts_for settings cost daily_total monthly_total =
    alert_over request_limit_exceeded cost settings.request_limit
    ++ (alert_over daily_limit_exceeded daily_total settings.daily_limit
        ++ alert_over monthly_limit_exceeded monthly_total settings.monthly_limit)

-- the payload that is sent, less the texts
pub record CostMessage : Type 0 where
  pub alert : CostAlert
  pub tenant_id : String
  pub sector : String
  pub job_id : Option String

-- `_send_cost_alert`; a webhook that fails changes nothing
abbrev pub send_all :
    (tenant_id sector : String) → (job_id : Option String) → List CostAlert → List CostMessage
send_all tenant_id sector job_id [] = []
send_all tenant_id sector job_id (alert ∷ alerts) =
    record { alert = alert; tenant_id = tenant_id; sector = sector; job_id = job_id }
    ∷ send_all tenant_id sector job_id alerts

unfoldable pub messages_for :
    CostSettings
    → (tenant_id sector : String) → (job_id : Option String) → List CostAlert
    → List CostMessage
messages_for settings tenant_id sector job_id alerts =
    if settings.has_webhook then send_all tenant_id sector job_id alerts else []

pub record Tracked : Type 0 where
  pub request_cost : ℕ
  pub daily_total : ℕ
  pub monthly_total : ℕ
  pub alerts : List AlertType

-- INCRBYFLOAT
abbrev pub added : ℕ → Option ℕ → ℕ
added cost none = cost
added cost (some total) = total + cost

-- amounts in ten-thousandths
pub record CostSummary : Type 0 where
  pub daily_spend_usd : ℕ
  pub monthly_spend_usd : ℕ
  pub daily_remaining_usd : ℕ
  pub monthly_remaining_usd : ℕ

-- 2 and 35 days
abbrev pub daily_ttl : ℕ
daily_ttl = 172800

abbrev pub monthly_ttl : ℕ
monthly_ttl = 3024000

module _ (R : Redis) (tenant_id : String) (day month : ℕ) where
  abbrev pub daily_of : R.Db → ℕ
  daily_of s = get_or (get R (Key.cost_daily tenant_id day) s) 0

  abbrev pub monthly_of : R.Db → ℕ
  monthly_of s = get_or (get R (Key.cost_monthly tenant_id month) s) 0

  -- the pipeline
  unfoldable pub add_cost : (cost : ℕ) → R.Db → R.Db
  add_cost cost s =
      let daily_key = Key.cost_daily tenant_id day in
      let monthly_key = Key.cost_monthly tenant_id month in
      let s1 = R.expire daily_key daily_ttl (R.update daily_key (added cost) s) in
      R.expire monthly_key monthly_ttl (R.update monthly_key (added cost) s1)

  unfoldable pub track_cost :
      CostSettings
      → (sector : String) → (cost : ℕ) → (job_id : Option String) → R.Db
      → Tracked × List CostMessage × R.Db
  unfolding add_cost alerts_for messages_for
  track_cost settings sector cost job_id s =
      let t = add_cost cost s in
      let alerts = alerts_for settings cost (daily_of t) (monthly_of t) in
      (
        record {
          request_cost = cost;
          daily_total = daily_of t;
          monthly_total = monthly_of t;
          alerts = map (λ (a : CostAlert). a.type) alerts;
        },
        messages_for settings tenant_id sector job_id alerts,
        t,
      )

  -- `round(max(0, limit - total), 4)`
  unfoldable pub get_cost_summary : CostSettings → R.Db → CostSummary
  get_cost_summary settings s = record {
    daily_spend_usd = round_ℕ (daily_of s) 100;
    monthly_spend_usd = round_ℕ (monthly_of s) 100;
    daily_remaining_usd = round_ℕ (settings.daily_limit - daily_of s) 100;
    monthly_remaining_usd = round_ℕ (settings.monthly_limit - monthly_of s) 100;
  }
