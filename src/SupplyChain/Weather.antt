-- ===== src/SupplyChain/Weather.antt =====
-- sectors/supply_chain/weather_agent.py. The call of Open-Meteo, under the circuit breaker, is an
-- argument: what it does to the server, and the two daily series, or nothing where it raises. The
-- text of an exception that the source does not write is an argument, too.
use multiagent_platform_v.Prelude.{
  Bool, List, Option, String, [], add_ℤ, false, format, get_or, if◌then◌else◌, keep, leb, leb_ℤ,
  length, ltb, ltb_ℤ, neg_ℤ, none, pos, round_ℤ, some, suc, true, ℕ, ℤ, ◌&&◌, ◌++◌, ◌∷◌,
}
use multiagent_platform_v.State.{UniversalState, WeatherOutput}
use multiagent_platform_v.Redis.{Redis}
use multiagent_platform_v.CircuitBreaker.{
  Protected, circuit_open, protect, raised, returned, type_error,
}

-- the service's name for the breaker

abbrev pub open_meteo : String
open_meteo = "open_meteo"

-- `temperature_2m_max` in tenths, `precipitation_sum` in tenths with `none` for null
pub record Daily : Type 0 where
  pub temps_max : List ℤ
  pub precip : List (Option ℕ)

abbrev pub location_of : UniversalState → String
location_of state = get_or state.input_data.location "Tunis, Tunisia"

abbrev pub sum_ℤ : List ℤ → ℤ
sum_ℤ [] = pos 0
sum_ℤ (t ∷ ts) = add_ℤ t (sum_ℤ ts)

-- `max(t, *ts)`
abbrev pub max_ℤ : ℤ → List ℤ → ℤ
max_ℤ t [] = t
max_ℤ t (u ∷ us) = max_ℤ (if ltb_ℤ t u then u else t) us

-- `p and p > 1.0`
abbrev pub is_rainy : Option ℕ → Bool
is_rainy none = false
is_rainy (some p) = ltb 10 p

-- the fields' bounds in WeatherOutput
abbrev pub is_temperature : ℤ → Bool
is_temperature t = leb_ℤ (neg_ℤ (pos 500)) t && leb_ℤ t (pos 600)

abbrev pub is_valid : WeatherOutput → Bool
is_valid w = is_temperature w.avg_temp && is_temperature w.max_temp && leb w.rain_days 30

-- `validate_weather_output`: the heat wave is derived, and `none` is a ValidationError
unfoldable pub validate_weather_output : WeatherOutput → Option WeatherOutput
validate_weather_output data_ =
    let w = record data_ { heat_wave = ltb_ℤ (pos 350) data_.max_temp } in
    if is_valid w then some w else none

-- an error's text, or the output
pub data Outcome : Type 0 where
  failed : (reason : String) → Outcome
  forecast : WeatherOutput → Outcome

module _ (text : String) where
  abbrev pub validated : Option WeatherOutput → Outcome
  validated none = failed text
  validated (some w) = forecast w

  -- the `try` after the call
  unfoldable pub read_daily : (location : String) → Daily → Outcome
  unfolding validate_weather_output
  read_daily location daily = elim daily.temps_max [
    | [] ↦ failed "Empty weather response"
    | t ∷ ts ↦ validated (
        validate_weather_output (record {
          avg_temp = round_ℤ (sum_ℤ (t ∷ ts)) (pos (suc (length ts)));
          max_temp = max_ℤ t ts;
          rain_days = length (keep is_rainy daily.precip);
          heat_wave = ltb_ℤ (pos 350) (max_ℤ t ts);
          location = location;
          fallback = false;
        }))
  ]

  unfoldable pub outcome_of : (location : String) → Protected Daily → Outcome
  unfolding read_daily
  outcome_of location (returned daily) = read_daily location daily
  outcome_of location circuit_open = failed "Circuit OPEN for open_meteo. Service unavailable."
  outcome_of location raised = failed text
  outcome_of location type_error = failed text

abbrev pub fallback_weather : (location : String) → WeatherOutput
fallback_weather location = record {
  avg_temp = pos 280;
  max_temp = pos 330;
  rain_days = 2;
  heat_wave = false;
  location = location;
  fallback = true;
}

-- the `except` clause, and the output in the state
unfoldable pub with_weather : UniversalState → Outcome → UniversalState
with_weather state (forecast output) = record state {
  agent_outputs = record state.agent_outputs { weather_agent = some output };
}
with_weather state (failed reason) = record state {
  errors = state.errors ++ format ("WeatherAgent: " ∷ reason ∷ []) ∷ [];
  agent_outputs = record state.agent_outputs {
    weather_agent = some (fallback_weather (location_of state));
  };
}

module _ (R : Redis) (failure_threshold recovery_timeout : ℕ) where
  unfoldable pub run_weather_agent :
      (fetch : (location : String) → R.Db → Option Daily × R.Db)
      → (text : String) → (start now later : ℕ) → UniversalState
      → R.Db
      → UniversalState × R.Db
  unfolding outcome_of with_weather
  run_weather_agent fetch text start now later state s =
      let location = location_of state in
      let (result, s') =
        protect R failure_threshold recovery_timeout open_meteo start now later (fetch location)
          s in
      (with_weather state (outcome_of text location result), s')
