-- ===== src/RateLimiting/Window.antt =====
-- How many requests of a tenant a window lets through.
use multiagent_platform_v.Prelude.{
  List, Option, String, [], arith, if◌then◌else◌, length, ltb, min, none, refl, some, suc, zero, ℕ,
  ◌+◌, ◌-◌, ◌/◌, ◌<◌, ◌∷◌, ◌≡◌, ◌≤◌,
}
use multiagent_platform_v.Redis.{Key, Redis, updated}
use multiagent_platform_v.Redis.Commands.{counted}
use multiagent_platform_v.RateLimiting.{
  Checked, RateLimits, answer, check_rate_limit, count_request, limit_of, no_limit, too_many,
  window_seconds,
}

abbrev pub passed : Checked → ℕ
passed (too_many _ _) = 0
passed _ = 1

-- the seconds that a list of gaps spans
abbrev pub total : List ℕ → ℕ
total [] = 0
total (g ∷ gs) = g + total gs

-- the counter of a window after so many requests
abbrev pub used_to : ℕ → Option ℕ
used_to zero = none
used_to (suc n) = some (suc n)

module _ (R : Redis) (limits : RateLimits) (tenant plan : String) where
  -- the number let through of a list of requests, each with the seconds since the one before
  pub admitted : (now : ℕ) → List ℕ → R.Db → ℕ
  admitted now [] s = 0
  admitted now (g ∷ gs) s =
      let (r, s') = check_rate_limit R limits tenant plan (now + g) (R.elapse g s) in
      passed r + admitted (now + g) gs s'

  module _ (window : ℕ) where
    -- the window's counter stands at `n` for as long as the window may still last
    abbrev pub CountsTo : (left n : ℕ) → R.Db → Type 0
    CountsTo left n s = (d : ℕ) → d ≤ left → R.peek s (Key.ratelimit tenant window) d ≡ used_to n

    count_request-CountsTo :
        (now left n : ℕ) (s : R.Db)
        → now / window_seconds ≡ window
        → left < 120
        → CountsTo left n s
        → CountsTo left (suc n) (count_request R limits tenant now s)
    unfolding count_request
    count_request-CountsTo now left n s e short h d le =
        let key = Key.ratelimit tenant window in
        rw (count_request, e, R.peek-expire_self)
          (counted_from n (R.update key counted s) (h 0 (omega arith))
            (R.peek-update_self key counted s 0))
      where
        counted_from :
            (n : ℕ) (t : R.Db)
            → R.peek s (Key.ratelimit tenant window) 0 ≡ used_to n
            → R.peek t (Key.ratelimit tenant window) 0
              ≡ updated counted
                  (R.peek s (Key.ratelimit tenant window) 0)
                  (R.peek s (Key.ratelimit tenant window) 0)
            → (if ltb d 120 then R.peek t (Key.ratelimit tenant window) 0 else none)
              ≡ used_to (suc n)
        counted_from zero t a b = ground arith
        counted_from (suc n) t a b = ground arith

    check_in_window :
        (now n : ℕ) (s : R.Db)
        → limit_of limits plan < no_limit
        → now / window_seconds ≡ window
        → R.peek s (Key.ratelimit tenant window) 0 ≡ used_to n
        → check_rate_limit R limits tenant plan now s
          ≡ (answer (suc n) (limit_of limits plan) now, count_request R limits tenant now s)
    unfolding check_rate_limit
    check_in_window now zero s capped e h = rw e (ground arith)
    check_in_window now (suc n) s capped e h = rw e (ground arith)

    passed-answer :
        (n limit now k : ℕ)
        → passed (answer (suc n) limit now) + min k (limit - suc n) ≡ min (suc k) (limit - n)
    unfolding answer
    passed-answer n limit now k = ground arith

    pub admitted_from :
        (gs : List ℕ) (now n : ℕ) (s : R.Db)
        → limit_of limits plan < no_limit
        → now / window_seconds ≡ window
        → (now + total gs) / window_seconds ≡ window
        → CountsTo (total gs) n s
        → admitted now gs s ≡ min (length gs) (limit_of limits plan - n)
    unfolding admitted
    admitted_from [] now n s capped e e' h = omega arith
    admitted_from (g ∷ gs) now n s capped e e' h =
        let later : CountsTo (total gs) n (R.elapse g s) =
          λ d le. rw R.peek-elapse (h (g + d) (omega arith)) in
        let here : (now + g) / window_seconds ≡ window = omega arith in
        rw (check_in_window (now + g) n (R.elapse g s) capped here (later 0 (omega arith))) (
          rw
            (admitted_from gs (now + g) (suc n)
              (count_request R limits tenant (now + g) (R.elapse g s)) capped here (omega arith)
              (count_request-CountsTo (now + g) (total gs) n (R.elapse g s) here (omega arith)
                later))
            (passed-answer n (limit_of limits plan) (now + g) (length gs)))

  -- Of a list of requests that fall into one window, whose counter is not set before, exactly the
  -- first `limit` are let through, for every plan with a limit.
  pub admitted-window :
      (gs : List ℕ) (now : ℕ) (s : R.Db)
      → limit_of limits plan < no_limit
      → (now + total gs) / window_seconds ≡ now / window_seconds
      → ((d : ℕ) → R.peek s (Key.ratelimit tenant (now / window_seconds)) d ≡ none)
      → admitted now gs s ≡ min (length gs) (limit_of limits plan)
  admitted-window gs now s capped same fresh =
      omega
        (arith, admitted_from (now / window_seconds) gs now 0 s capped refl same (λ d le. fresh d))
