-- ===== src/CircuitBreaker/Frame.antt =====
-- The breaker writes its circuit's key alone.
use multiagent_platform_v.Prelude.{
  Bool, Option, String, false, none, refl, some, true, ℕ, ◌∙◌, ◌≡◌, ◌≢◌,
}
use multiagent_platform_v.Documents.{Circuit, CircuitState, closed, half_open, opened}
use multiagent_platform_v.Redis.{Key, Redis}
use multiagent_platform_v.CircuitBreaker.{
  probe, available_in, settle, enter, recovered, save_state, record_success, record_failure,
  is_available, protect, get_state,
}

module _ (R : Redis) (threshold timeout : ℕ) (service : String) (k : Key) (d : ℕ) where
  save_state-other :
      (c : Circuit) (s : R.Db)
      → Key.circuit service ≢ k
      → R.peek (save_state R threshold timeout service c s) k d ≡ R.peek s k d
  unfolding save_state
  save_state-other c s ne = R.peek-store_ne (Key.circuit service) k c _ s d ne

  probe-other :
      (c : Circuit) (o : Option Bool) (s : R.Db)
      → Key.circuit service ≢ k
      → R.peek (probe R threshold timeout service c o s).1 k d ≡ R.peek s k d
  probe-other c none s ne = refl
  probe-other c (some false) s ne = refl
  probe-other c (some true) s ne = save_state-other (record c { state = half_open }) s ne

  available_in-other :
      (state : CircuitState) (c : Circuit) (now : ℕ) (s : R.Db)
      → Key.circuit service ≢ k
      → R.peek (available_in R threshold timeout state service c now s).1 k d ≡ R.peek s k d
  available_in-other closed c now s ne = refl
  available_in-other opened c now s ne =
      probe-other c (recovered R threshold timeout c.opened_at now) s ne
  available_in-other half_open c now s ne = refl

  is_available-other :
      (now : ℕ) (s : R.Db)
      → Key.circuit service ≢ k
      → R.peek (is_available R threshold timeout service now s).1 k d ≡ R.peek s k d
  unfolding is_available
  is_available-other now s ne =
      let c = get_state R threshold timeout service s in available_in-other c.state c now s ne

  module _ {A : Type 0} where
    settle-other :
        (now later : ℕ) (o : Option A) (s : R.Db)
        → Key.circuit service ≢ k
        → R.peek (settle R threshold timeout service now later (o, s)).1 k d ≡ R.peek s k d
    unfolding settle record_success record_failure
    settle-other now later (some a) s ne = save_state-other _ s ne
    settle-other now later none s ne = save_state-other _ s ne

    enter-other :
        (now later : ℕ) (body : R.Db → Option A × R.Db) (o : Option Bool) (s : R.Db)
        → Key.circuit service ≢ k
        → ((s' : R.Db) → R.peek (body s').1 k d ≡ R.peek s' k d)
        → R.peek (enter R threshold timeout service now later body (o, s)).1 k d ≡ R.peek s k d
    unfolding enter
    enter-other now later body none s ne kept = refl
    enter-other now later body (some false) s ne kept = refl
    enter-other now later body (some true) s ne kept =
        settle-other now later (body s).0 (body s).1 ne ∙ kept s

    pub protect-other :
        (start now later : ℕ) (body : R.Db → Option A × R.Db) (s : R.Db)
        → Key.circuit service ≢ k
        → ((s' : R.Db) → R.peek (body s').1 k d ≡ R.peek s' k d)
        → R.peek (protect R threshold timeout service start now later body s).1 k d ≡ R.peek s k d
    unfolding protect
    protect-other start now later body s ne kept =
        let (o, s') = is_available R threshold timeout service start s in
        enter-other now later body o s' ne kept ∙ is_available-other start s ne
