-- ===== src/HitlRoutes.antt =====
-- api/hitl_routes.py: the reviewers' endpoints.
pub mod Verdicts
pub mod Deadline
mod Tests
use multiagent_platform_v.Prelude.{
  Bool, Option, String, false, get_or, if◌then◌else◌, none, some, true, ℕ, ◌==◌,
}
use multiagent_platform_v.Documents.{Approval, pending, verdict}
use multiagent_platform_v.Http.{Http, respond, http_error}
use multiagent_platform_v.Redis.{Key, Redis}
use multiagent_platform_v.Redis.Commands.{get, setex}

-- an answer is kept for an hour

abbrev pub verdict_ttl : ℕ
verdict_ttl = 3600

-- `text or default`
abbrev pub or_text : Option String → String → String
or_text none default = default
or_text (some text) default = if text == "" then default else text

-- the body's `reviewer` and `comment`
pub record ValidationResponse : Type 0 where
  pub reviewer : String
  pub comment : Option String

-- the "status" of GET /hitl/pending/{request_id}
pub data PendingStatus : Type 0 where
  expired_or_not_found : PendingStatus
  still_pending : PendingStatus
  processed : Approval → PendingStatus

module _ (R : Redis) where
  -- the two endpoints differ in the answer alone: the checks and the write
  pub answer_pending : (request_id status : String) → Approval → R.Db → Http String × R.Db
  answer_pending request_id status answer s = elim (get R (Key.hitl_approval request_id) s) [
    | none ↦ (http_error 404, s)
    | some (verdict _ _ _) ↦ (http_error 409, s)
    | some pending ↦ (respond status, setex R (Key.hitl_approval request_id) verdict_ttl answer s)
  ]

  abbrev pub approval_of : ValidationResponse → Approval
  approval_of body = verdict true body.reviewer (or_text body.comment "Approved")

  abbrev pub rejection_of : ValidationResponse → Approval
  rejection_of body = verdict false body.reviewer (or_text body.comment "Rejected")

  pub approve_decision : (request_id : String) → ValidationResponse → R.Db → Http String × R.Db
  unfolding answer_pending
  approve_decision request_id body s = answer_pending request_id "approved" (approval_of body) s

  pub reject_decision : (request_id : String) → ValidationResponse → R.Db → Http String × R.Db
  unfolding answer_pending
  reject_decision request_id body s = answer_pending request_id "rejected" (rejection_of body) s

  pub get_pending : (request_id : String) → R.Db → PendingStatus
  get_pending request_id s = elim (get R (Key.hitl_approval request_id) s) [
    | none ↦ expired_or_not_found
    | some pending ↦ still_pending
    | some (verdict a r c) ↦ processed (verdict a r c)
  ]

  -- `approved` is `body.action.lower() == "approve"`
  abbrev pub dashboard_answer : (approved : Bool) → Option String → Approval
  dashboard_answer approved reason =
      verdict approved "dashboard"
        (or_text reason (if approved then "Approved via dashboard" else "Rejected via dashboard"))

  -- POST /hitl/respond/{job_id}: no check of what is there
  pub respond_by_job : (job_id : String) → (approved : Bool) → Option String → R.Db → String × R.Db
  respond_by_job job_id approved reason s =
      let request_id = get_or (get R (Key.hitl_job job_id) s) job_id in
      (
        request_id,
        setex R (Key.hitl_approval request_id) verdict_ttl (dashboard_answer approved reason) s,
      )
