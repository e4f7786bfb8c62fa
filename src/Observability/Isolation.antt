-- ===== src/Observability/Isolation.antt =====
-- What a tenant is shown depends on the tenant's own keys alone.
use multiagent_platform_v.Prelude.{
  List, String, [], ap, eqb, get_or, if◌then◌else◌, keep, leb, length, none, refl, round_ℕ, some,
  suc, take, zero, ℕ, ◌*◌, ◌+◌, ◌-◌, ◌/◌, ◌∙◌, ◌∷◌, ◌≡◌,
}
use multiagent_platform_v.Documents.{DecisionEntry}
use multiagent_platform_v.Http.{http_error, respond}
use multiagent_platform_v.Redis.{Key, Redis}
use multiagent_platform_v.Jobs.{list_jobs, load_jobs, sort_jobs}
use multiagent_platform_v.RateLimiting.{
  RateLimits, get_rate_limit_status, limit_of, retry_after, window_seconds,
}
use multiagent_platform_v.Rbac.{Tenant, get_audit_logs, has_permission}
use multiagent_platform_v.Costs.{CostSettings, get_cost_summary}
use multiagent_platform_v.Memory.{
  factor_of, generate_memory_note, get_adjustment_factor, get_memory_summary,
}
use multiagent_platform_v.Memory.Safety.{get_reset_log}
use multiagent_platform_v.Kpis.Report.{cost_history, get_business_kpis, get_decisions, report_of}
use multiagent_platform_v.Observability.{
  Clock, audit_logs, business_kpis, dashboard_of, get_all_jobs, get_costs, get_dashboard,
  get_memory, plan_of, rate_limit,
}

-- the keys with the tenant in them, and the jobs

abbrev pub IsOwn : (tenant_id : String) → Key → Type 0
IsOwn tenant_id (Key.tenant_jobs t) = t ≡ tenant_id
IsOwn tenant_id (Key.ratelimit t _) = t ≡ tenant_id
IsOwn tenant_id (Key.audit t) = t ≡ tenant_id
IsOwn tenant_id (Key.cost_daily t _) = t ≡ tenant_id
IsOwn tenant_id (Key.cost_monthly t _) = t ≡ tenant_id
IsOwn tenant_id (Key.decisions t) = t ≡ tenant_id
IsOwn tenant_id (Key.last_decision t _ _) = t ≡ tenant_id
IsOwn tenant_id (Key.reset_log t _ _) = t ≡ tenant_id
IsOwn tenant_id (Key.job _) = Unit
IsOwn tenant_id _ = ⊥

module _ (R : Redis) (tenant : Tenant) (s t : R.Db) where
  -- the two servers answer alike for the tenant's own keys
  abbrev pub LooksAlike : Type 0
  LooksAlike = (k : Key) → IsOwn tenant.tenant_id k → R.peek s k 0 ≡ R.peek t k 0

  load_jobs-alike :
      LooksAlike → (job_ids : List String) → load_jobs R job_ids s ≡ load_jobs R job_ids t
  unfolding load_jobs
  load_jobs-alike same [] = refl
  load_jobs-alike same (job_id ∷ job_ids) = λ i.
      let rest = load_jobs-alike same job_ids i in
      elim (same (Key.job job_id) tt i) [ none ↦ rest | some job ↦ job ∷ rest ]

  cost_history-alike :
      LooksAlike
      → (left today i : ℕ)
      → cost_history R tenant.tenant_id left today i s
        ≡ cost_history R tenant.tenant_id left today i t
  unfolding cost_history
  cost_history-alike same zero today i = refl
  cost_history-alike same (suc left) today i = λ j.
      let rest = cost_history-alike same left today (i + 1) j in
      elim (same (Key.cost_daily tenant.tenant_id (today - i)) refl j) [
        | none ↦ rest
        | some cost ↦ cost ∷ rest
      ]

  list_jobs-alike :
      LooksAlike
      → (limit : ℕ) → list_jobs R tenant.tenant_id limit s ≡ list_jobs R tenant.tenant_id limit t
  unfolding list_jobs
  list_jobs-alike same limit =
      let ids = λ (u : R.Db). get_or (R.peek u (Key.tenant_jobs tenant.tenant_id) 0) [] in
      ap (λ (job_ids : List String). take limit (sort_jobs (load_jobs R job_ids s)))
        (ap (λ o. get_or o []) (same (Key.tenant_jobs tenant.tenant_id) refl))
      ∙ ap (λ jobs. take limit (sort_jobs jobs)) (load_jobs-alike same (ids t))

  get_costs-alike :
      LooksAlike
      → (settings : CostSettings) (clock : Clock)
      → get_costs R tenant settings clock s ≡ get_costs R tenant settings clock t
  unfolding get_costs get_cost_summary
  get_costs-alike same settings clock =
      let today = same (Key.cost_daily tenant.tenant_id clock.day) refl in
      let month = same (Key.cost_monthly tenant.tenant_id clock.month) refl in
      λ i. record {
        daily_spend_usd = round_ℕ (get_or (today i) 0) 100;
        monthly_spend_usd = round_ℕ (get_or (month i) 0) 100;
        daily_remaining_usd = round_ℕ (settings.daily_limit - get_or (today i) 0) 100;
        monthly_remaining_usd = round_ℕ (settings.monthly_limit - get_or (month i) 0) 100;
      }

  rate_limit-alike :
      LooksAlike
      → (limits : RateLimits) (clock : Clock)
      → rate_limit R tenant limits clock s ≡ rate_limit R tenant limits clock t
  unfolding rate_limit get_rate_limit_status
  rate_limit-alike same limits clock =
      let limit = limit_of limits (plan_of tenant) in
      let used = same (Key.ratelimit tenant.tenant_id (clock.now / window_seconds)) refl in
      λ i. record {
        requests_used = get_or (used i) 0;
        requests_limit = limit;
        remaining = limit - get_or (used i) 0;
        window_resets_in = retry_after clock.now;
      }

  memory-alike :
      LooksAlike
      → (product_id : String) → get_memory R tenant product_id s ≡ get_memory R tenant product_id t
  unfolding get_memory get_memory_summary get_reset_log get_adjustment_factor
  memory-alike same product_id =
      let memory = same (Key.last_decision tenant.tenant_id tenant.sector product_id) refl in
      let log = same (Key.reset_log tenant.tenant_id tenant.sector product_id) refl in
      λ i. (
        elim (memory i) [
          | none ↦ none
          | some m ↦
              let adjustment : ℕ = elim (memory i) [ none ↦ 1000 | some n ↦ factor_of n ] in
              some (record {
                last_decision_at = m.timestamp;
                last_confidence = m.confidence;
                forecast_accuracy = m.forecast_accuracy;
                adjustment_factor = adjustment;
                note = generate_memory_note m.forecast_accuracy adjustment;
              })
        ],
        take 10 (get_or (log i) []),
      )

  get_decisions-alike :
      LooksAlike
      → (days now : ℕ)
      → get_decisions R tenant.tenant_id days now s ≡ get_decisions R tenant.tenant_id days now t
  unfolding get_decisions
  get_decisions-alike same days now =
      ap (λ o. keep (λ (d : DecisionEntry). leb (now - days * 86400) d.timestamp) (get_or o []))
        (same (Key.decisions tenant.tenant_id) refl)

  kpis-alike :
      LooksAlike
      → (savings days : ℕ) (clock : Clock)
      → business_kpis R tenant savings days clock s ≡ business_kpis R tenant savings days clock t
  unfolding business_kpis get_business_kpis
  kpis-alike same savings days clock =
      let decisions = get_decisions-alike same days clock.now in
      let costs = cost_history-alike same days clock.day 0 in
      λ i.
        if eqb (length (decisions i)) 0
        then none
        else some (report_of savings (decisions i) (costs i))

  audit_logs-alike : LooksAlike → audit_logs R tenant s ≡ audit_logs R tenant t
  unfolding audit_logs get_audit_logs
  audit_logs-alike same =
      let log = same (Key.audit tenant.tenant_id) refl in
      λ i. elim (has_permission tenant "view_audit_logs") [
        | none ↦ http_error 500
        | some may ↦ if may then respond (take 100 (get_or (log i) [])) else http_error 403
      ]

  -- Two servers that answer alike for the tenant's own keys and for the jobs show the tenant the
  -- same: the dashboard, the job list, the costs, the memory of a product with its resets, the
  -- business figures and the audit log do not depend on another tenant's costs, memories,
  -- decisions, requests or log, nor on the queues, locks and circuits.
  pub shown-isolated :
      (settings : CostSettings) (limits : RateLimits) (clock : Clock) (product_id : String)
      (savings days : ℕ)
      → LooksAlike
      → (get_dashboard R tenant settings limits clock s
          ≡ get_dashboard R tenant settings limits clock t)
        × (get_all_jobs R tenant s ≡ get_all_jobs R tenant t)
        × (get_costs R tenant settings clock s ≡ get_costs R tenant settings clock t)
        × (get_memory R tenant product_id s ≡ get_memory R tenant product_id t)
        × (business_kpis R tenant savings days clock s
            ≡ business_kpis R tenant savings days clock t)
        × (audit_logs R tenant s ≡ audit_logs R tenant t)
  unfolding get_dashboard get_all_jobs
  shown-isolated settings limits clock product_id savings days same =
      let costs = get_costs-alike same settings clock in
      let rate = rate_limit-alike same limits clock in
      let jobs = list_jobs-alike same 10 in
      (
        λ i. dashboard_of tenant (costs i) (rate i) (jobs i),
        list_jobs-alike same 20,
        costs,
        memory-alike same product_id,
        kpis-alike same savings days clock,
        audit_logs-alike same,
      )
