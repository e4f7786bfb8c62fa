-- ===== src/CircuitBreaker/Recovery.antt =====
-- How a circuit opens, blocks, probes and closes again.
use multiagent_platform_v.Prelude.{
  ℕ, ◌+◌, ◌≤◌, ◌<◌, String, ◌≡◌, Bool, true, Option, none, some, List, [], ◌∷◌, arith, All, length,
  leb, if◌then◌else◌,
}
use multiagent_platform_v.Documents.{Circuit, CircuitState, closed, opened, half_open}
use multiagent_platform_v.Redis.{Key, Redis}
use multiagent_platform_v.CircuitBreaker.{
  Protected, returned, circuit_open, raised, circuit_ttl, get_state, save_state, succeeded, failed,
  record_success, record_failure, is_available, protect, settle,
}

module _ (R : Redis) (threshold timeout : ℕ) (service : String) where
  pub get_state-save_state :
      (c : Circuit) (s : R.Db)
      → get_state R threshold timeout service (save_state R threshold timeout service c s) ≡ c
  unfolding save_state
  get_state-save_state c s = ground (
    arith,
    R.peek-store_self (Key.circuit service) c (some (circuit_ttl R threshold timeout)) s 0,
  )

  get_state-elapse :
      (c : Circuit) (pause : ℕ) (s : R.Db)
      → pause < 86400
      → get_state R threshold timeout service
          (R.elapse pause (save_state R threshold timeout service c s))
        ≡ c
  unfolding save_state
  get_state-elapse c pause s short = ground (
    arith,
    R.peek-elapse pause (R.store (Key.circuit service) c (some (circuit_ttl R threshold timeout)) s)
        (Key.circuit service) 0,
    R.peek-store_self (Key.circuit service) c (some (circuit_ttl R threshold timeout)) s
        (pause + 0),
  )

  -- one failure after another, the first one now, and the pause that follows each
  pub failures : (now : ℕ) → (pauses : List ℕ) → R.Db → R.Db
  failures now [] s = s
  failures now (pause ∷ pauses) s =
      failures (now + pause) pauses
        (R.elapse pause (record_failure R threshold timeout service now now s))

  abbrev state_after : ℕ → CircuitState
  state_after n = if leb threshold n then opened else closed

  record_failure_counts :
      (n now pause : ℕ) (s : R.Db)
      → pause < 86400
      → (get_state R threshold timeout service s).failures ≡ n
      → (get_state R threshold timeout service s).state ≡ state_after n
      → let c =
          get_state R threshold timeout service
            (R.elapse pause (record_failure R threshold timeout service now now s)) in
        (c.failures ≡ n + 1) × (c.state ≡ state_after (n + 1))
  unfolding record_failure failed
  record_failure_counts n now pause s short f st = ground (
    arith,
    get_state-elapse (failed R threshold timeout now now (get_state R threshold timeout service s))
        pause s short,
  )

  failures_from :
      (now : ℕ) (pauses : List ℕ) (n : ℕ) (s : R.Db)
      → All (λ pause. pause < 86400) pauses
      → (get_state R threshold timeout service s).failures ≡ n
      → (get_state R threshold timeout service s).state ≡ state_after n
      → let c = get_state R threshold timeout service (failures now pauses s) in
        (c.failures ≡ n + length pauses) × (c.state ≡ state_after (n + length pauses))
  unfolding failures
  failures_from now [] n s short f st = ground arith
  failures_from now (pause ∷ pauses) n s short f st =
      let h = record_failure_counts n now pause s short.0 f st in
      ground (
        arith,
        failures_from (now + pause) pauses (n + 1)
            (R.elapse pause (record_failure R threshold timeout service now now s)) short.1 h.0 h.1,
      )

  -- A circuit that starts closed with no failure, and failures in a row with less than a day (the
  -- life of the circuit's key) after each: in the end it has counted them all, and it is open exactly
  -- if there are as many as the threshold, which is positive.
  pub failures-opens :
      (now : ℕ) (pauses : List ℕ) (s : R.Db)
      → 0 < threshold
      → All (λ pause. pause < 86400) pauses
      → (get_state R threshold timeout service s).state ≡ closed
      → (get_state R threshold timeout service s).failures ≡ 0
      → let c = get_state R threshold timeout service (failures now pauses s) in
        (c.failures ≡ length pauses)
        × (c.state ≡ (if leb threshold (length pauses) then opened else closed))
  failures-opens now pauses s positive short closed_at fresh =
      ground (arith, failures_from now pauses 0 s short fresh)

  module _ {A : Type 0} (body : R.Db → Option A × R.Db) where
    -- While the recovery timeout since the opening has not passed, `protect` raises
    -- CircuitOpenError: the body is not run, no failure is counted, and nothing is written.
    pub protect_blocks :
        (start now later opening : ℕ) (s : R.Db)
        → (get_state R threshold timeout service s).state ≡ opened
        → (get_state R threshold timeout service s).opened_at ≡ some opening
        → start ≤ opening + timeout
        → protect R threshold timeout service start now later body s ≡ (circuit_open, s)
    unfolding protect is_available
    protect_blocks start now later opening s st at early = ground arith

    -- the body's outcome decides the circuit
    abbrev pub Settles : (later : ℕ) → Option A → Protected A × R.Db → Type 0
    Settles later (some a) (r, t) =
        (r ≡ returned a)
        × ((get_state R threshold timeout service t).state ≡ closed)
        × ((get_state R threshold timeout service t).failures ≡ 0)
    Settles later none (r, t) =
        (r ≡ raised)
        × ((get_state R threshold timeout service t).state ≡ opened)
        × ((get_state R threshold timeout service t).opened_at ≡ some later)

    -- the server as the body finds it
    abbrev pub probing : R.Db → R.Db
    probing s =
        save_state R threshold timeout service
          (record (get_state R threshold timeout service s) { state = half_open }) s

    protect_enters :
        (start now later opening : ℕ) (s : R.Db)
        → (get_state R threshold timeout service s).state ≡ opened
        → (get_state R threshold timeout service s).opened_at ≡ some opening
        → opening + timeout < start
        → protect R threshold timeout service start now later body s
          ≡ settle R threshold timeout service now later (body (probing s))
    unfolding protect is_available
    protect_enters start now later opening s st at late = ground arith

    settle-Settles :
        (now later : ℕ) (o : Option A) (u : R.Db)
        → threshold ≤ (get_state R threshold timeout service u).failures
        → Settles later o (settle R threshold timeout service now later (o, u))
    unfolding settle record_success record_failure succeeded failed
    settle-Settles now later (some a) u h =
        let c = get_state R threshold timeout service u in
        ground (arith, get_state-save_state (succeeded R threshold timeout c) u)
    settle-Settles now later none u h =
        let c = get_state R threshold timeout service u in
        ground (arith, get_state-save_state (failed R threshold timeout now later c) u)

    -- Once more than the recovery timeout has passed since the opening, one call probes the service
    -- with the circuit half open. If the body returns, the circuit is closed with no failure; if it
    -- raises, the circuit is open again, from the time of that failure. The circuit had reached the
    -- threshold, and the body leaves the circuit's key alone.
    pub protect_probes :
        (start now later opening : ℕ) (s : R.Db)
        → (get_state R threshold timeout service s).state ≡ opened
        → (get_state R threshold timeout service s).opened_at ≡ some opening
        → threshold ≤ (get_state R threshold timeout service s).failures
        → opening + timeout < start
        → R.peek (body (probing s)).1 (Key.circuit service) 0
          ≡ R.peek (probing s) (Key.circuit service) 0
        → Settles later
            (body (probing s)).0
            (protect R threshold timeout service start now later body s)
    protect_probes start now later opening s st at reached late quiet =
        let c = record (get_state R threshold timeout service s) { state = half_open } in
        rw (protect_enters start now later opening s st at late) (
          settle-Settles now later (body (probing s)).0 (body (probing s)).1
            (ground (arith, quiet, get_state-save_state c s)))

  -- the answers of any number of calls that begin while the circuit is half open
  pub admissions : List ℕ → R.Db → List (Option Bool)
  admissions [] s = []
  admissions (t ∷ ts) s =
      let (o, s') = is_available R threshold timeout service t s in o ∷ admissions ts s'

  -- Every call that finds the circuit half open is let through, as many as come before the first of
  -- them has reported back.
  pub admissions-half_open :
      (ts : List ℕ) (s : R.Db)
      → (get_state R threshold timeout service s).state ≡ half_open
      → All (λ o. o ≡ some true) (admissions ts s)
  unfolding admissions is_available
  admissions-half_open [] s h = tt
  admissions-half_open (t ∷ ts) s h = ground (arith, admissions-half_open ts s h)
