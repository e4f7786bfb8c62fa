-- ===== src/CircuitBreaker/Tests.antt =====
-- The breaker at concrete inputs, on a server in memory.
use multiagent_platform_v.Prelude.{
  ℕ, String, ◌≡◌, refl, ap, ◌≢◌, Option, none, some, [], ◌∷◌, arith,
}
use multiagent_platform_v.Documents.{Circuit, opened}
use multiagent_platform_v.Redis.{Key}
use multiagent_platform_v.Redis.Memory.{memory, empty, peek-empty}
use multiagent_platform_v.CircuitBreaker.{
  circuit_open, get_state, save_state, is_available, protect, record_failure,
}
use multiagent_platform_v.CircuitBreaker.Invariant.{
  StaysSound, Step, Run, new_circuit-IsSound, Run-StaysSound,
}
use multiagent_platform_v.CircuitBreaker.Recovery.{
  failures, failures-opens, protect_blocks, protect_probes, Settles, get_state-save_state,
}

abbrev meteo : String
meteo = "open_meteo"

empty-StaysSound : StaysSound memory 3 120 meteo empty
empty-StaysSound d =
    rw (peek-empty (Key.circuit meteo) d) (new_circuit-IsSound memory 3 120 (omega arith))

Run-StaysSound_example :
    StaysSound memory 3 120 meteo (record_failure memory 3 120 meteo 5 6 empty)
    × ((is_available memory 3 120 meteo 9 (record_failure memory 3 120 meteo 5 6 empty)).0 ≢ none)
Run-StaysSound_example =
    Run-StaysSound memory 3 120 meteo 9 (omega arith) empty-StaysSound
      (Run.next (Step.failure 5 6 refl) (Run.stop _))

abbrev three_failures : memory.Db
three_failures = failures memory 3 120 meteo 5 (60 ∷ 40000 ∷ 1 ∷ []) empty

failures-opens_example :
    let c = get_state memory 3 120 meteo three_failures in (c.failures ≡ 3) × (c.state ≡ opened)
failures-opens_example =
    failures-opens memory 3 120 meteo 5 (60 ∷ 40000 ∷ 1 ∷ []) empty (omega arith)
      (omega arith, (omega arith, (omega arith, tt)))
      (ground (arith, peek-empty (Key.circuit meteo) 0))
      (ground (arith, peek-empty (Key.circuit meteo) 0))

abbrev fetch : memory.Db → Option ℕ × memory.Db
fetch s = (some 21, s)

abbrev timing_out : memory.Db → Option ℕ × memory.Db
timing_out s = (none, s)

abbrev tripped : Circuit
tripped = record { state = opened; failures = 3; last_failure = some 7; opened_at = some 7 }

-- the circuit is open since second 7
abbrev down : memory.Db
down = save_state memory 3 120 meteo tripped empty

protect_blocks_example : protect memory 3 120 meteo 127 128 129 fetch down ≡ (circuit_open, down)
protect_blocks_example =
    protect_blocks memory 3 120 meteo fetch 127 128 129 7 down
      (ap (λ c. c.state) (get_state-save_state memory 3 120 meteo tripped empty))
      (ap (λ c. c.opened_at) (get_state-save_state memory 3 120 meteo tripped empty)) (omega arith)

protect_probes_example :
    Settles memory 3 120 meteo timing_out 130 none
      (protect memory 3 120 meteo 128 129 130 timing_out down)
protect_probes_example =
    protect_probes memory 3 120 meteo timing_out 128 129 130 7 down
      (ap (λ c. c.state) (get_state-save_state memory 3 120 meteo tripped empty))
      (ap (λ c. c.opened_at) (get_state-save_state memory 3 120 meteo tripped empty))
      (ground (arith, get_state-save_state memory 3 120 meteo tripped empty)) (omega arith) refl
