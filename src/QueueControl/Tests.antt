-- ===== src/QueueControl/Tests.antt =====
-- The counters at concrete inputs, on a server in memory.
use multiagent_platform_v.Prelude.{List, [], arith, get_or, pos, refl, ◌∷◌, ◌≡◌}
use multiagent_platform_v.Redis.{Key}
use multiagent_platform_v.Redis.Memory.{empty, memory, peek-empty}
use multiagent_platform_v.QueueControl.{get_queue_for_sector}
use multiagent_platform_v.QueueControl.Admission.{
  Event, InLimits, finish, handle_all, handle_all-IsBounded, pass, request,
}

routes : (get_queue_for_sector "legal" ≡ "heavy") × (get_queue_for_sector "supply_chain" ≡ "light")
unfolding get_queue_for_sector
routes = (refl, refl)

abbrev day : List Event
day = request "acme" ∷ request "acme" ∷ pass 60 ∷ finish "acme" ∷ request "globex" ∷ []

handle_all-IsBounded_example :
    InLimits memory 2 1
      (get_or (memory.peek (handle_all memory 2 1 day empty) Key.queue_global 30) (pos 0))
handle_all-IsBounded_example =
    handle_all-IsBounded memory 2 1 day empty (λ d. ground (arith, peek-empty Key.queue_global d))
      30
