-- ===== src/CircuitBreaker/Invariant.antt =====
-- What holds of a circuit in every state that the program reaches, whatever time passes and
-- whatever the rest of the program does to other keys.
use multiagent_platform_v.Prelude.{
  ℕ, ◌+◌, ◌≤◌, ◌<◌, String, ◌≡◌, ◌≢◌, refl, Bool, true, false, Option, none, some, arith, get_or,
}
use multiagent_platform_v.Documents.{Circuit, CircuitState, closed, opened, half_open}
use multiagent_platform_v.Redis.{Key, Redis}
use multiagent_platform_v.CircuitBreaker.{
  new_circuit, circuit_ttl, get_state, save_state, succeeded, failed, record_success,
  record_failure, is_available, probe, available_in, recovered,
}

pub record IsSound (threshold : ℕ) (c : Circuit) : Type 0 where
  pub closed_below : c.state ≡ closed → c.failures < threshold
  pub tripped : c.state ≢ closed → threshold ≤ c.failures
  pub opened_known : c.state ≡ opened → c.opened_at ≢ none

module _ (R : Redis) (threshold timeout : ℕ) where
  -- at every later moment too: the key may expire
  abbrev pub StaysSound : String → R.Db → Type 0
  StaysSound service s =
      (d : ℕ) → IsSound threshold (get_or (R.peek s (Key.circuit service) d) new_circuit)

  pub new_circuit-IsSound : 0 < threshold → IsSound threshold new_circuit
  new_circuit-IsSound h = ground arith

  succeeded-IsSound :
      (c : Circuit) → 0 < threshold → IsSound threshold (succeeded R threshold timeout c)
  unfolding succeeded
  succeeded-IsSound c h = ground arith

  failed-IsSound :
      (now later : ℕ) (c : Circuit)
      → IsSound threshold c
      → IsSound threshold (failed R threshold timeout now later c)
  unfolding failed
  failed-IsSound now later c h = ground arith

  save_state-StaysSound :
      (service : String) (c : Circuit) (s : R.Db)
      → 0 < threshold
      → IsSound threshold c
      → StaysSound service (save_state R threshold timeout service c s)
  unfolding save_state
  save_state-StaysSound service c s pos sound d = ground (
    arith,
    new_circuit-IsSound pos,
    R.peek-store_self (Key.circuit service) c (some (circuit_ttl R threshold timeout)) s d,
  )

  half_open-IsSound :
      (c : Circuit)
      → IsSound threshold c
      → c.state ≡ opened
      → IsSound threshold (record c { state = half_open })
  half_open-IsSound c h e = ground arith

  probe-StaysSound :
      (service : String) (c : Circuit) (o : Option Bool) (s : R.Db)
      → 0 < threshold
      → IsSound threshold c
      → c.state ≡ opened
      → StaysSound service s
      → StaysSound service (probe R threshold timeout service c o s).1
  probe-StaysSound service c none s pos h e sound = sound
  probe-StaysSound service c (some false) s pos h e sound = sound
  probe-StaysSound service c (some true) s pos h e sound =
      save_state-StaysSound service (record c { state = half_open }) s pos (half_open-IsSound c h e)

  available_in-StaysSound :
      (state : CircuitState) (service : String) (c : Circuit) (now : ℕ) (s : R.Db)
      → 0 < threshold
      → IsSound threshold c
      → c.state ≡ state
      → StaysSound service s
      → StaysSound service (available_in R threshold timeout state service c now s).1
  available_in-StaysSound closed service c now s pos h e sound = sound
  available_in-StaysSound half_open service c now s pos h e sound = sound
  available_in-StaysSound opened service c now s pos h e sound =
      probe-StaysSound service c (recovered R threshold timeout c.opened_at now) s pos h e sound

  -- What one of the breaker's methods, the passing of time, or the rest of the program does.
  pub data Step (service : String) (s t : R.Db) : Type 0 where
    success : t ≡ record_success R threshold timeout service s → Step service s t
    failure :
        (now later : ℕ)
        → t ≡ record_failure R threshold timeout service now later s
        → Step service s t
    check : (now : ℕ) → t ≡ (is_available R threshold timeout service now s).1 → Step service s t
    wait : (n : ℕ) → t ≡ R.elapse n s → Step service s t
    other :
        ((d : ℕ) → R.peek t (Key.circuit service) d ≡ R.peek s (Key.circuit service) d)
        → Step service s t

  pub data Run (service : String) : R.Db → R.Db → Type 0 where
    stop : (s : R.Db) → Run service s s
    next : {s u t : R.Db} → Step service s u → Run service u t → Run service s t

  Step-StaysSound :
      (service : String) (s t : R.Db)
      → 0 < threshold
      → StaysSound service s
      → Step service s t
      → StaysSound service t
  unfolding record_success record_failure is_available
  Step-StaysSound service s t pos sound (success e) =
      let c = get_state R threshold timeout service s in
      rw e (
        save_state-StaysSound service (succeeded R threshold timeout c) s pos
          (succeeded-IsSound c pos))
  Step-StaysSound service s t pos sound (failure now later e) =
      let c = get_state R threshold timeout service s in
      rw e (
        save_state-StaysSound service (failed R threshold timeout now later c) s pos
          (failed-IsSound now later c (sound 0)))
  Step-StaysSound service s t pos sound (check now e) =
      let c = get_state R threshold timeout service s in
      rw e (available_in-StaysSound c.state service c now s pos (sound 0) refl sound)
  Step-StaysSound service s t pos sound (wait n e) = λ d. rw (e, R.peek-elapse) (sound (n + d))
  Step-StaysSound service s t pos sound (other same) = λ d. rw (same d) (sound d)

  is_available-ne-none :
      (service : String) (now : ℕ) (s : R.Db)
      → StaysSound service s
      → (is_available R threshold timeout service now s).0 ≢ none
  unfolding is_available
  is_available-ne-none service now s sound = ground (arith, sound 0)

  -- Where the threshold is positive and a circuit is sound, it stays so however the program goes
  -- on (the breaker's methods, the passing of time, commands on other keys): at every later moment
  -- a closed circuit is below the threshold, any other has reached it, and an open one has a time
  -- of opening. So `is_available` never raises a TypeError.
  pub Run-StaysSound :
      (service : String) {s t : R.Db} (now : ℕ)
      → 0 < threshold
      → StaysSound service s
      → Run service s t
      → StaysSound service t × ((is_available R threshold timeout service now t).0 ≢ none)
  Run-StaysSound service now pos sound (stop s) = (sound, is_available-ne-none service now s sound)
  Run-StaysSound service now pos sound (next {s} {u} st r) =
      Run-StaysSound service now pos (Step-StaysSound service s u pos sound st) r
