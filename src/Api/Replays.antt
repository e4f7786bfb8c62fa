-- ===== src/Api/Replays.antt =====
-- POST /analyze: requests that are refused, and requests that are sent again.
use multiagent_platform_v.Prelude.{
  Bool, List, Option-cases, String, [], ap, arith, eq_iff, false, format, get_or, if◌then◌else◌,
  inl, inr, none, refl, some, sym, true, ℕ, ◌+◌, ◌<◌, ◌∙◌, ◌∷◌, ◌≡◌, ◌≢◌, ◌⊎◌,
}
use multiagent_platform_v.Documents.{Response}
use multiagent_platform_v.Http.{Http, http_error, respond}
use multiagent_platform_v.Jobs.{create_job}
use multiagent_platform_v.Idempotency.Replay.{check-store}
use multiagent_platform_v.Rbac.Hierarchy.{audit_log-other}
use multiagent_platform_v.QueueControl.{check_backpressure, increment_queue}
use multiagent_platform_v.Rbac.{Tenant, audit_log}
use multiagent_platform_v.Redis.{Redis}
use multiagent_platform_v.Idempotency.{
  cache_key, check_idempotency, idempotency_ttl, replayed, store_idempotency,
}
use multiagent_platform_v.RateLimiting.{
  Checked, check_rate_limit, too_many, unlimited, within_limit,
}
use multiagent_platform_v.Worker.{Message}
use multiagent_platform_v.Api.{
  AnalysisRequest, Limits, accept, accepted_input, admit, analyze, is_allowed, response_of, user_of,
}

abbrev body_of : Http Response → Response → Response
body_of (respond response) _ = response
body_of (http_error _) response = response

never :
    (response : Response) (code : ℕ) → ◌≢◌ {A = Http Response} (respond response) (http_error code)
never response code e = ground (arith, e)

module _ (R : Redis) where
  same-check :
      (key tenant_id : String) (s t : R.Db)
      → R.peek s (cache_key key tenant_id) 0 ≡ R.peek t (cache_key key tenant_id) 0
      → check_idempotency R key tenant_id s ≡ check_idempotency R key tenant_id t
  unfolding check_idempotency
  same-check key tenant_id s t same = ground (arith, same)

  module _ (limits : Limits) (tenant : Tenant) (request : AnalysisRequest) (key job_id : String)
      (now : ℕ) where
    -- the rate limit is checked first, and its counter is the only change of a refusal
    abbrev pub rated : R.Db → Checked × R.Db
    rated s = check_rate_limit R limits.rates tenant.tenant_id (get_or tenant.plan "starter") now s

    abbrev pub Ends : Http Response × List Message × R.Db → Checked → R.Db → Type 0
    Ends result checked s =
        ((code : ℕ) × (result ≡ (http_error code, [], s)))
        ⊎ (result ≡ accept R tenant request key job_id checked now s)

    by_test :
        (checked : Checked) (s : R.Db) (b : Bool)
        → Ends
            (if b
              then accept R tenant request key job_id checked now s
              else (http_error 503, [], s))
            checked
            s
    by_test checked s true = inr refl
    by_test checked s false = inl (503, refl)

    admit-Ends :
        (checked : Checked) (s : R.Db)
        → Ends (admit R limits tenant request key job_id now (checked, s)) checked s
    unfolding admit
    admit-Ends (too_many limit wait) s = inl (429, refl)
    admit-Ends unlimited s = by_test unlimited s (
        is_allowed
          (check_backpressure R limits.max_queue_size limits.max_tenant_queue tenant.tenant_id s))
    admit-Ends (within_limit rate) s = by_test (within_limit rate) s (
        is_allowed
          (check_backpressure R limits.max_queue_size limits.max_tenant_queue tenant.tenant_id s))

    pub analyze-Ends :
        (s : R.Db)
        → ((cached : Response) × (check_idempotency R key tenant.tenant_id s ≡ some cached)
            × (analyze R limits tenant request key job_id now s ≡ (respond cached, [], s)))
          ⊎ Ends (analyze R limits tenant request key job_id now s) (rated s).0 (rated s).1
    unfolding analyze
    analyze-Ends s = elim (Option-cases (check_idempotency R key tenant.tenant_id s)) [
      | inl absent ↦ inr (rw (analyze, absent) (admit-Ends (rated s).0 (rated s).1))
      | inr (cached, found) ↦ inl (cached, found, rw (analyze, found) refl)
    ]

    accepted :
        (s : R.Db)
        → analyze R limits tenant request key job_id now s
          ≡ accept R tenant request key job_id (rated s).0 now (rated s).1
        → (analyze R limits tenant request key job_id now s).0
          ≡ respond (response_of job_id tenant.sector (rated s).0)
    unfolding accept
    accepted s e = ap (λ r. r.0) e

    -- A request that is refused, by the rate limit or by the queue, creates and sends nothing: the
    -- counter of the rate limit is all that it changes.
    pub analyze-refused :
        (code : ℕ) (s : R.Db)
        → (analyze R limits tenant request key job_id now s).0 ≡ http_error code
        → ((analyze R limits tenant request key job_id now s).1 ≡ [])
          × ((analyze R limits tenant request key job_id now s).2 ≡ (rated s).1)
    analyze-refused code s refused = elim (analyze-Ends s) [
      | inl (cached, found, e) ↦ absurd (never cached code (sym (ap (λ r. r.0) e) ∙ refused))
      | inr (inl (c, e)) ↦ (ap (λ r. r.1) e, ap (λ r. r.2) e)
      | inr (inr e) ↦
          absurd (
            never (response_of job_id tenant.sector (rated s).0) code
              (sym (accepted s e) ∙ refused))
    ]

    accept-stores :
        (checked : Checked) (s : R.Db) (elapsed : ℕ)
        → key ≢ ""
        → elapsed < idempotency_ttl
        → check_idempotency R key tenant.tenant_id
            (R.elapse elapsed (accept R tenant request key job_id checked now s).2)
          ≡ some (replayed (response_of job_id tenant.sector checked))
    unfolding accept
    accept-stores checked s elapsed filled alive =
        let id = tenant.tenant_id in
        let input_data = accepted_input request in
        let s1 = create_job R job_id id tenant.sector input_data now s in
        let s2 = increment_queue R id s1 in
        let s3 = store_idempotency R key id (response_of job_id tenant.sector checked) s2 in
        let resource = format ("job:" ∷ job_id ∷ []) in
        let s4 = audit_log R id (user_of tenant) "analyze" resource true now s3 in
        let k = cache_key key id in
        let same =
          R.peek-elapse elapsed s4 k 0
          ∙ audit_log-other R id (user_of tenant) "analyze" resource true now k (elapsed + 0) s3
              (ground arith)
          ∙ sym (R.peek-elapse elapsed s3 k 0) in
        same-check key id (R.elapse elapsed s4) (R.elapse elapsed s3) same
        ∙ check-store R key id (response_of job_id tenant.sector checked) elapsed s2
        ∙ ground (arith, eq_iff key "", filled, alive)

    -- A request with a key that its tenant has not used, sent again with that key within 24 hours of
    -- its acceptance, whatever the repetition contains: it gets the first response, marked as a
    -- replay, and creates, counts and sends nothing.
    pub analyze-replayed :
        (s : R.Db) (response : Response) (elapsed : ℕ) (again : AnalysisRequest) (job_id' : String)
        (now' : ℕ)
        → key ≢ ""
        → elapsed < idempotency_ttl
        → check_idempotency R key tenant.tenant_id s ≡ none
        → (analyze R limits tenant request key job_id now s).0 ≡ respond response
        → let t = R.elapse elapsed (analyze R limits tenant request key job_id now s).2 in
          analyze R limits tenant again key job_id' now' t ≡ (respond (replayed response), [], t)
    unfolding analyze
    analyze-replayed s response elapsed again job_id' now' filled alive fresh ok =
        let t = R.elapse elapsed (analyze R limits tenant request key job_id now s).2 in
        let stored : check_idempotency R key tenant.tenant_id t ≡ some (replayed response) =
          elim (analyze-Ends s) [
            | inl (cached, found, e) ↦ absurd (ground (arith, fresh, found))
            | inr (inl (c, e)) ↦ absurd (never response c (sym ok ∙ ap (λ r. r.0) e))
            | inr (inr e) ↦
                ap (λ r. check_idempotency R key tenant.tenant_id (R.elapse elapsed r.2)) e
                ∙ accept-stores (rated s).0 (rated s).1 elapsed filled alive
                ∙ ap (λ r. some (replayed (body_of r response))) (sym (accepted s e) ∙ ok)
          ] in
        rw (analyze, stored) refl
