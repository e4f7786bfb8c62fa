-- ===== src/CircuitBreaker.antt =====
-- core/circuit_breaker.py. `time.time()` is an argument, in the unit of `recovery_timeout`; where
-- the source reads the clock twice there are two arguments. A breaker is its service's name.
pub mod Invariant
pub mod Recovery
pub mod Frame
mod Tests
use multiagent_platform_v.Prelude.{
  ℕ, ◌+◌, ◌-◌, String, Bool, true, false, Option, none, some, ltb, leb, get_or, if◌then◌else◌,
}
use multiagent_platform_v.Documents.{Circuit, CircuitState, closed, opened, half_open}
use multiagent_platform_v.Redis.{Key, Redis}
use multiagent_platform_v.Redis.Commands.{get, setex}

-- what a block under `protect` comes to: its value, CircuitOpenError, its own exception, or a
-- TypeError of `is_available`

pub data Protected (A : Type 0) : Type 0 where
  returned : A → Protected A
  circuit_open : Protected A
  raised : Protected A
  type_error : Protected A

abbrev pub new_circuit : Circuit
new_circuit = record { state = closed; failures = 0; last_failure = none; opened_at = none }

-- FAILURE_THRESHOLD and RECOVERY_TIMEOUT
module _ (R : Redis) (failure_threshold recovery_timeout : ℕ) where
  -- the key lives for a day
  abbrev pub circuit_ttl : ℕ
  circuit_ttl = 86400

  abbrev pub get_state : String → R.Db → Circuit
  get_state service s = get_or (get R (Key.circuit service) s) new_circuit

  pub save_state : String → Circuit → R.Db → R.Db
  save_state service data_ s = setex R (Key.circuit service) circuit_ttl data_ s

  -- the two updates of the dict
  pub succeeded : Circuit → Circuit
  succeeded c = record c { state = closed; failures = 0 }

  pub failed : (now later : ℕ) → Circuit → Circuit
  failed now later c =
      let c' = record c { failures = c.failures + 1; last_failure = some now } in
      if leb failure_threshold c'.failures
      then record c' { state = opened; opened_at = some later }
      else c'

  pub record_success : String → R.Db → R.Db
  record_success service s = save_state service (succeeded (get_state service s)) s

  pub record_failure : String → (now later : ℕ) → R.Db → R.Db
  record_failure service now later s = save_state service (failed now later (get_state service s)) s

  -- the test of an open circuit; `time.time() - None` is a TypeError
  recovered : Option ℕ → (now : ℕ) → Option Bool
  recovered none now = none
  recovered (some opened_at) now = some (ltb recovery_timeout (now - opened_at))

  abbrev probe : String → Circuit → Option Bool → R.Db → Option Bool × R.Db
  probe service c none s = (none, s)
  probe service c (some false) s = (some false, s)
  probe service c (some true) s = (some true, save_state service (record c { state = half_open }) s)

  abbrev available_in : CircuitState → String → Circuit → (now : ℕ) → R.Db → Option Bool × R.Db
  available_in closed service c now s = (some true, s)
  available_in opened service c now s = probe service c (recovered c.opened_at now) s
  available_in half_open service c now s = (some true, s)

  -- `none` is the TypeError
  pub is_available : String → (now : ℕ) → R.Db → Option Bool × R.Db
  unfolding recovered
  is_available service now s = let c = get_state service s in available_in c.state service c now s

  module _ {A : Type 0} where
    settle : String → (now later : ℕ) → Option A × R.Db → Protected A × R.Db
    settle service now later (some a, s) = (returned a, record_success service s)
    settle service now later (none, s) = (raised, record_failure service now later s)

    enter :
        String
        → (now later : ℕ) → (R.Db → Option A × R.Db)
        → Option Bool × R.Db
        → Protected A × R.Db
    enter service now later body (none, s) = (type_error, s)
    enter service now later body (some false, s) = (circuit_open, s)
    enter service now later body (some true, s) = settle service now later (body s)

    -- `async with breaker.protect(): body`; a body that raises gives `none`
    pub protect :
        String → (start now later : ℕ) → (R.Db → Option A × R.Db) → R.Db → Protected A × R.Db
    unfolding settle enter
    protect service start now later body s =
        enter service now later body (is_available service start s)
