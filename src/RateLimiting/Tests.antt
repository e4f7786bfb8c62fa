-- ===== src/RateLimiting/Tests.antt =====
-- The limiter at concrete inputs, on a server in memory.
use multiagent_platform_v.Prelude.{[], arith, min, refl, ◌∷◌, ◌≡◌}
use multiagent_platform_v.Redis.{Key}
use multiagent_platform_v.Redis.Memory.{empty, memory, peek-empty}
use multiagent_platform_v.RateLimiting.{RateLimits, limit_of}
use multiagent_platform_v.RateLimiting.Window.{admitted, admitted-window}

abbrev limits : RateLimits
limits = record { starter = 2; pro = 60; enterprise = 999999 }

plans : (limit_of limits "pro" ≡ 60) × (limit_of limits "gold" ≡ 2)
unfolding limit_of
plans = (refl, refl)

admitted-window_example :
    admitted memory limits "acme" "starter" 120 (1 ∷ 2 ∷ 3 ∷ []) empty
    ≡ min 3 (limit_of limits "starter")
unfolding limit_of
admitted-window_example =
    admitted-window memory limits "acme" "starter" (1 ∷ 2 ∷ 3 ∷ []) 120 empty (omega arith) refl
      (λ d. peek-empty (Key.ratelimit "acme" 2) d)
