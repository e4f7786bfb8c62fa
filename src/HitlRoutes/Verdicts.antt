-- ===== src/HitlRoutes/Verdicts.antt =====
-- Which of several answers to one request counts.
use multiagent_platform_v.Prelude.{
  All, Bool, List, Option, String, [], ap, arith, false, get_or, if◌then◌else◌, ltb, none, refl,
  some, true, ℕ, ◌∙◌, ◌∷◌, ◌≡◌,
}
use multiagent_platform_v.Documents.{Approval, pending, verdict}
use multiagent_platform_v.Http.{Http, respond, http_error}
use multiagent_platform_v.Redis.{Key, Redis}
use multiagent_platform_v.Redis.Commands.{get}
use multiagent_platform_v.HitlRoutes.{
  ValidationResponse, approval_of, approve_decision, dashboard_answer, or_text, reject_decision,
  rejection_of, respond_by_job, verdict_ttl,
}

module _ (R : Redis) (request_id : String) where
  -- POST /hitl/approve or POST /hitl/reject
  abbrev pub review : Bool → ValidationResponse → R.Db → Http String × R.Db
  review true body s = approve_decision R request_id body s
  review false body s = reject_decision R request_id body s

  abbrev pub answer_of : Bool → ValidationResponse → Approval
  answer_of true body = approval_of R body
  answer_of false body = rejection_of R body

  abbrev pub status_of : Bool → String
  status_of true = "approved"
  status_of false = "rejected"

  pub review_pending :
      (b : Bool) (body : ValidationResponse) (s : R.Db)
      → R.peek s (Key.hitl_approval request_id) 0 ≡ some pending
      → review b body s ≡ (
        respond (status_of b),
        R.store (Key.hitl_approval request_id) (answer_of b body) (some verdict_ttl) s,
      )
  unfolding approve_decision reject_decision
  review_pending true body s h = ground arith
  review_pending false body s h = ground arith

  pub review_answered :
      (b : Bool) (body : ValidationResponse) (s : R.Db) {a : Bool} {r c : String}
      → R.peek s (Key.hitl_approval request_id) 0 ≡ some (verdict a r c)
      → review b body s ≡ (http_error 409, s)
  unfolding approve_decision reject_decision
  review_answered true body s h = ground arith
  review_answered false body s h = ground arith

  -- several reviews, one after another: the responses, and the server in the end
  pub reviews : List (Bool × ValidationResponse) → R.Db → List (Http String) × R.Db
  reviews [] s = ([], s)
  reviews ((b, body) ∷ rest) s =
      let (response, s') = review b body s in
      let (responses, t) = reviews rest s' in (response ∷ responses, t)

  reviews_answered :
      (calls : List (Bool × ValidationResponse)) (s : R.Db) {a : Bool} {r c : String}
      → R.peek s (Key.hitl_approval request_id) 0 ≡ some (verdict a r c)
      → All (λ response. response ≡ http_error 409) (reviews calls s).0 × ((reviews calls s).1 ≡ s)
  unfolding reviews
  reviews_answered [] s h = (tt, refl)
  reviews_answered ((b, body) ∷ rest) s h =
      rw (review_answered b body s h)
        (let (errors, same) = reviews_answered rest s h in ((refl, errors), same))

  answer_of-verdict :
      (b : Bool) (body : ValidationResponse)
      → (a : Bool) × (r c : String) × (answer_of b body ≡ verdict a r c)
  answer_of-verdict true body = (true, body.reviewer, or_text body.comment "Approved", refl)
  answer_of-verdict false body = (false, body.reviewer, or_text body.comment "Rejected", refl)

  -- Of several reviews of a pending request the first one counts: it is accepted and stays what is
  -- stored, with its hour to live, and each later one gets HTTP 409 and changes nothing.
  pub reviews_first_counts :
      (b : Bool) (body : ValidationResponse) (later : List (Bool × ValidationResponse)) (s : R.Db)
      → R.peek s (Key.hitl_approval request_id) 0 ≡ some pending
      → let (responses, t) = reviews ((b, body) ∷ later) s in
        ((rest : List (Http String)) × (responses ≡ respond (status_of b) ∷ rest)
          × All (λ response. response ≡ http_error 409) rest)
        × ((d : ℕ)
            → R.peek t (Key.hitl_approval request_id) d
              ≡ (if ltb d verdict_ttl then some (answer_of b body) else none))
  unfolding reviews
  reviews_first_counts b body later s h =
      let key = Key.hitl_approval request_id in
      let s' = R.store key (answer_of b body) (some verdict_ttl) s in
      let (a, r, c, e) = answer_of-verdict b body in
      let stored : R.peek s' key 0 ≡ some (verdict a r c) =
        R.peek-store_self key (answer_of b body) (some verdict_ttl) s 0 ∙ ap some e in
      let (errors, same) = reviews_answered later s' stored in
      rw (review_pending b body s h) (
        ((reviews later s').0, refl, errors),
        λ d. rw same (R.peek-store_self key (answer_of b body) (some verdict_ttl) s d),
      )

  -- The dashboard's answer replaces whatever is stored for the request, an answer already given
  -- included; and without a request for the job it is stored under the job's own id.
  pub respond_by_job_overwrites :
      (job_id : String) (approved : Bool) (reason : Option String) (s : R.Db)
      → let target = get_or (get R (Key.hitl_job job_id) s) job_id in
        let (answered, t) = respond_by_job R job_id approved reason s in
        (answered ≡ target)
        × (get R (Key.hitl_approval target) t ≡ some (dashboard_answer R approved reason))
  unfolding respond_by_job
  respond_by_job_overwrites job_id approved reason s =
      let target = get_or (get R (Key.hitl_job job_id) s) job_id in
      (
        refl,
        R.peek-store_self (Key.hitl_approval target) (dashboard_answer R approved reason)
            (some verdict_ttl) s 0,
      )
