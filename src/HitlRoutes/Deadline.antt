-- ===== src/HitlRoutes/Deadline.antt =====
-- The request, the answer, and the task that resolves the request when the timeout has passed.
use multiagent_platform_v.Prelude.{
  Bool, Option, String, arith, if◌then◌else◌, ltb, none, refl, some, ℕ, ◌+◌, ◌<◌, ◌≡◌,
}
use multiagent_platform_v.State.{AggregatedInsights}
use multiagent_platform_v.Documents.{pending}
use multiagent_platform_v.Http.{respond}
use multiagent_platform_v.Redis.{Key, Redis}
use multiagent_platform_v.Hitl.{
  HitlSettings, Resolved, decide, request_human_validation, resolve_hitl,
}
use multiagent_platform_v.HitlRoutes.{ValidationResponse, verdict_ttl}
use multiagent_platform_v.HitlRoutes.Verdicts.{answer_of, review, review_pending, status_of}

module _ (R : Redis) (settings : HitlSettings) (request_id tenant_id sector : String)
    (insights : Option AggregatedInsights) (confidence now : ℕ) (text : Option String)
    (s : R.Db) where
  abbrev pub requested : R.Db
  requested =
      (request_human_validation R settings request_id tenant_id sector insights confidence now s).1

  -- the outcome of a reviewer's answer
  abbrev pub outcome_of : Bool → ValidationResponse → Resolved
  outcome_of b body = decide R settings (some (answer_of R request_id b body)) text

  -- With no answer, the task that fires at the timeout falls back to the configured outcome.
  pub resolve_unanswered :
      resolve_hitl R settings request_id text (R.elapse settings.timeout_seconds requested)
      ≡ decide R settings none text
  unfolding resolve_hitl request_human_validation
  resolve_unanswered =
      let k = Key.hitl_approval request_id in
      ground (
        arith,
        R.peek-elapse settings.timeout_seconds requested k 0,
        R.peek-store_self k pending (some settings.timeout_seconds) s
            (settings.timeout_seconds + 0),
      )

  -- A reviewer answers before the timeout, and the task resolves the request when the timeout has
  -- passed. The answer is accepted; it decides the outcome if the task fires less than an hour
  -- after it, and otherwise has expired, so that the fallback decides.
  pub resolve-review :
      (b : Bool) (body : ValidationResponse) (before after : ℕ)
      → before < settings.timeout_seconds
      → before + after ≡ settings.timeout_seconds
      → let (response, answered) = review R request_id b body (R.elapse before requested) in
        (response ≡ respond (status_of R request_id b))
        × (resolve_hitl R settings request_id text (R.elapse after answered)
            ≡ (if ltb after verdict_ttl then outcome_of b body else decide R settings none text))
  unfolding resolve_hitl request_human_validation
  resolve-review b body before after early sum =
      let k = Key.hitl_approval request_id in
      let waiting = R.elapse before requested in
      let answer = answer_of R request_id b body in
      let answered = R.store k answer (some verdict_ttl) waiting in
      let still : R.peek waiting k 0 ≡ some pending = ground (
        arith,
        R.peek-elapse before requested k 0,
        R.peek-store_self k pending (some settings.timeout_seconds) s (before + 0),
      ) in
      rw (review_pending R request_id b body waiting still) (
        refl,
        ground (
          arith,
          R.peek-elapse after answered k 0,
          R.peek-store_self k answer (some verdict_ttl) waiting (after + 0),
        ),
      )
