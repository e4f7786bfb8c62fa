-- ===== src/RateLimiting.antt =====
-- core/rate_limiting.py. `now` is `int(time.time())`; `int(time.time() / 60)` is then `now / 60`.
pub mod Window
pub mod Boundary
mod Tests
use multiagent_platform_v.Prelude.{
  String, get_or, if◌then◌else◌, leb, ltb, ℕ, ◌%◌, ◌*◌, ◌-◌, ◌/◌, ◌==◌,
}
use multiagent_platform_v.Documents.{Rate}
use multiagent_platform_v.Redis.{Key, Redis}
use multiagent_platform_v.Redis.Commands.{counted, get}

-- RATE_LIMITS, read from the environment

pub record RateLimits : Type 0 where
  pub starter : ℕ
  pub pro : ℕ
  pub enterprise : ℕ

abbrev pub window_seconds : ℕ
window_seconds = 60

-- a limit from here on is no limit
abbrev pub no_limit : ℕ
no_limit = 999999

-- `RATE_LIMITS.get(plan, RATE_LIMITS["starter"])`
unfoldable pub limit_of : RateLimits → String → ℕ
limit_of limits plan =
    if plan == "pro"
    then limits.pro
    else if plan == "enterprise"
    then limits.enterprise
    else limits.starter

-- the bare `return`, the dict, and HTTP 429
pub data Checked : Type 0 where
  unlimited : Checked
  within_limit : Rate → Checked
  too_many : (limit retry_after : ℕ) → Checked

pub record RateStatus : Type 0 where
  pub requests_used : ℕ
  pub requests_limit : ℕ
  pub remaining : ℕ
  pub window_resets_in : ℕ

abbrev pub retry_after : ℕ → ℕ
retry_after now = window_seconds - now % window_seconds

pub answer : (current limit now : ℕ) → Checked
answer current limit now =
    if ltb limit current
    then too_many limit (retry_after now)
    else within_limit
        (record { requests_used = current; requests_limit = limit; remaining = limit - current })

module _ (R : Redis) (limits : RateLimits) where
  -- INCR and EXPIRE of the window's counter
  pub count_request : String → (now : ℕ) → R.Db → R.Db
  count_request tenant now s =
      let key = Key.ratelimit tenant (now / window_seconds) in
      R.expire key (window_seconds * 2) (R.update key counted s)

  unfoldable pub check_rate_limit : (tenant plan : String) → (now : ℕ) → R.Db → Checked × R.Db
  unfolding answer count_request
  check_rate_limit tenant plan now s =
      let limit = limit_of limits plan in
      if leb no_limit limit then (unlimited, s) else (
        answer (counted (get R (Key.ratelimit tenant (now / window_seconds)) s)) limit now,
        count_request tenant now s,
      )

  unfoldable pub get_rate_limit_status : (tenant plan : String) → (now : ℕ) → R.Db → RateStatus
  get_rate_limit_status tenant plan now s =
      let limit = limit_of limits plan in
      let current = get_or (get R (Key.ratelimit tenant (now / window_seconds)) s) 0 in
      record {
        requests_used = current;
        requests_limit = limit;
        remaining = limit - current;
        window_resets_in = retry_after now;
      }
