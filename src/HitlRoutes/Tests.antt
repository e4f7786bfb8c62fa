-- ===== src/HitlRoutes/Tests.antt =====
-- Reviews at concrete inputs, on a server in memory.
use multiagent_platform_v.Prelude.{
  All, Bool, List, String, [], arith, false, if◌then◌else◌, ltb, none, refl, some, true, ℕ, ◌∷◌,
  ◌≡◌,
}
use multiagent_platform_v.Documents.{pending, verdict}
use multiagent_platform_v.Http.{Http, respond, http_error}
use multiagent_platform_v.Redis.{Key}
use multiagent_platform_v.Redis.Memory.{empty, memory}
use multiagent_platform_v.Hitl.{HitlSettings, decide, resolve_hitl}
use multiagent_platform_v.HitlRoutes.{ValidationResponse, verdict_ttl}
use multiagent_platform_v.HitlRoutes.Verdicts.{review, reviews, reviews_first_counts}
use multiagent_platform_v.HitlRoutes.Deadline.{requested, resolve-review}

abbrev body : ValidationResponse
body = record { reviewer = "nadia"; comment = none }

abbrev settings : HitlSettings
settings = record {
  timeout_seconds = 7200;
  confidence_threshold = 800;
  fallback_approve = true;
  has_webhook = false;
}

abbrev waiting : memory.Db
waiting = memory.store (Key.hitl_approval "req-1") pending (some 7200) empty

reviews_first_counts_example :
    let calls : List (Bool × ValidationResponse) = (false, body) ∷ (true, body) ∷ [] in
    let (responses, t) = reviews memory "req-1" calls waiting in
    ((rest : List (Http String)) × (responses ≡ respond "rejected" ∷ rest)
      × All (λ response. response ≡ http_error 409) rest)
    × ((d : ℕ)
        → memory.peek t (Key.hitl_approval "req-1") d
          ≡ (if ltb d verdict_ttl then some (verdict false "nadia" "Rejected") else none))
reviews_first_counts_example =
    reviews_first_counts memory "req-1" false body ((true, body) ∷ []) waiting
      (memory.peek-store_self (Key.hitl_approval "req-1") pending (some 7200) empty 0)

-- A rejection after a minute, with a timeout of two hours: the fallback decides.
resolve-review_example :
    let start = memory.elapse 60 (
      requested memory settings "req-1" "acme" "supply_chain" none 500 0
        (some "Order 500.")
        empty) in
    let (response, answered) = review memory "req-1" false body start in
    (response ≡ respond "rejected")
    × (resolve_hitl memory settings "req-1" (some "Order 500.") (memory.elapse 7140 answered)
        ≡ decide memory settings none (some "Order 500."))
resolve-review_example =
    resolve-review memory settings "req-1" "acme" "supply_chain" none 500 0 (some "Order 500.")
      empty false body 60 7140 (omega arith) refl
