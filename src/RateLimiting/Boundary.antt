-- ===== src/RateLimiting/Boundary.antt =====
-- The counter is one for each calendar minute: what two neighbouring windows let through together.
use multiagent_platform_v.Prelude.{
  List, String, [], arith, length, none, refl, suc, zero, ℕ, ◌*◌, ◌+◌, ◌/◌, ◌<◌, ◌∷◌, ◌≡◌, ◌≢◌,
}
use multiagent_platform_v.Redis.{Key, Redis}
use multiagent_platform_v.Redis.Commands.{counted}
use multiagent_platform_v.RateLimiting.{
  RateLimits, check_rate_limit, limit_of, no_limit, window_seconds,
}
use multiagent_platform_v.RateLimiting.Window.{admitted, admitted_from, total}

-- so many requests in the same second

abbrev pub at_once : ℕ → List ℕ
at_once zero = []
at_once (suc n) = 0 ∷ at_once n

total-at_once : (n : ℕ) → total (at_once n) ≡ 0
total-at_once zero = refl
total-at_once (suc n) = omega (arith, total-at_once n)

length-at_once : (n : ℕ) → length (at_once n) ≡ n
length-at_once zero = refl
length-at_once (suc n) = omega (arith, length-at_once n)

module _ (R : Redis) (limits : RateLimits) (tenant plan : String) where
  -- the server after a list of requests
  pub after : (now : ℕ) → List ℕ → R.Db → R.Db
  after now [] s = s
  after now (g ∷ gs) s =
      after (now + g) gs (check_rate_limit R limits tenant plan (now + g) (R.elapse g s)).1

  key-ne : (v w : ℕ) → v ≢ w → Key.ratelimit tenant v ≢ Key.ratelimit tenant w
  key-ne v w ne e = ground arith

  check_rate_limit-other :
      (now window d : ℕ) (s : R.Db)
      → now / window_seconds ≢ window
      → R.peek (check_rate_limit R limits tenant plan now s).1 (Key.ratelimit tenant window) d
        ≡ R.peek s (Key.ratelimit tenant window) d
  unfolding check_rate_limit
  check_rate_limit-other now window d s ne =
      let here = Key.ratelimit tenant (now / window_seconds) in
      let other = Key.ratelimit tenant window in
      ground (
        arith,
        R.peek-expire_ne here other (window_seconds * 2) (R.update here counted s) d
            (key-ne (now / window_seconds) window ne),
        R.peek-update_ne here other counted s d (key-ne (now / window_seconds) window ne),
      )

  after-other :
      (n now window d : ℕ) (s : R.Db)
      → now / window_seconds ≢ window
      → ((d : ℕ) → R.peek s (Key.ratelimit tenant window) d ≡ none)
      → R.peek (after now (at_once n) s) (Key.ratelimit tenant window) d ≡ none
  unfolding after
  after-other zero now window d s ne fresh = fresh d
  after-other (suc n) now window d s ne fresh =
      after-other n (now + 0) window d
        (check_rate_limit R limits tenant plan (now + 0) (R.elapse 0 s)).1 (λ e. ne (omega arith))
        (λ d'.
          rw (check_rate_limit-other (now + 0) window d' (R.elapse 0 s) (λ e. ne (omega arith)))
            (rw R.peek-elapse (fresh (0 + d'))))

  -- A tenant that sends `limit` requests in the last second of one minute and `limit` more in the
  -- next second has them all let through, for every plan with a limit: twice the limit within two
  -- seconds. Neither minute's counter was set before.
  pub boundary_burst :
      (w : ℕ) (s : R.Db)
      → limit_of limits plan < no_limit
      → ((d : ℕ) → R.peek s (Key.ratelimit tenant w) d ≡ none)
      → ((d : ℕ) → R.peek s (Key.ratelimit tenant (w + 1)) d ≡ none)
      → let burst = at_once (limit_of limits plan) in
        let now = w * 60 + 59 in
        admitted R limits tenant plan now burst s
          + admitted R limits tenant plan (now + 1) burst (R.elapse 1 (after now burst s))
        ≡ 2 * limit_of limits plan
  boundary_burst w s capped first second =
      let burst = at_once (limit_of limits plan) in
      let now = w * 60 + 59 in
      let zero = total-at_once (limit_of limits plan) in
      let later = R.elapse 1 (after now burst s) in
      let unset : (d : ℕ) → R.peek later (Key.ratelimit tenant (w + 1)) d ≡ none = λ d.
        rw R.peek-elapse
          (after-other (limit_of limits plan) now (w + 1) (1 + d) s (λ e. omega arith) second) in
      omega (
        arith,
        length-at_once (limit_of limits plan),
        admitted_from R limits tenant plan w burst now 0 s capped (omega arith) (omega arith)
            (λ d le. first d),
        admitted_from R limits tenant plan (w + 1) burst (now + 1) 0 later capped (omega arith)
            (omega arith) (λ d le. unset d),
      )
