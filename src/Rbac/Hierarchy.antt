-- ===== src/Rbac/Hierarchy.antt =====
-- The order of the roles, and what the audit log keeps.
use multiagent_platform_v.Prelude.{
  Bool, Bool-cases, List, Option-cases, String, [], ap, arith, eq_iff, false, get_or, if◌then◌else◌,
  inl, inr, refl, some, subst, suc, sym, take, true, ℕ, ◌+◌, ◌<◌, ◌==◌, ◌||◌, ◌∙◌, ◌∷◌, ◌≡◌, ◌≢◌,
  ◌≤◌,
}
use multiagent_platform_v.Documents.{AuditEntry}
use multiagent_platform_v.Redis.{Key, Redis}
use multiagent_platform_v.Redis.Commands.{contains, get, lpushed, ltrimmed}
use multiagent_platform_v.Rbac.{
  Role, Tenant, admin, analyst, audit_log, audit_log_ttl, get_audit_logs, has_permission,
  permissions, role_allows, role_of, viewer,
}

viewer_by_tests :
    (jobs costs dashboard analyse approve retry : Bool)
    → (jobs || (costs || (dashboard || false))) ≡ true
    → (analyse || (jobs || (costs || (dashboard || (approve || (retry || false)))))) ≡ true
viewer_by_tests jobs costs dashboard analyse approve retry h = ground (arith, h)

analyst_by_tests :
    (analyse jobs costs dashboard approve retry secrets memory dlq users logs : Bool)
    → (analyse || (jobs || (costs || (dashboard || (approve || (retry || false)))))) ≡ true
    → (analyse
        || (jobs
            || (costs
                || (dashboard
                    || (secrets
                        || (memory
                            || (dlq || (retry || (users || (approve || (logs || false)))))))))))
      ≡ true
analyst_by_tests analyse jobs costs dashboard approve retry secrets memory dlq users logs h =
    ground (arith, h)

abbrev pub rank : Role → ℕ
rank viewer = 0
rank analyst = 1
rank admin = 2

viewer-analyst :
    (p : String) → contains p (permissions viewer) ≡ true → contains p (permissions analyst) ≡ true
viewer-analyst p =
    viewer_by_tests ("view_jobs" == p) ("view_costs" == p) ("view_dashboard" == p) ("analyze" == p)
      ("approve_hitl" == p) ("retry_jobs" == p)

analyst-admin :
    (p : String) → contains p (permissions analyst) ≡ true → contains p (permissions admin) ≡ true
analyst-admin p =
    analyst_by_tests ("analyze" == p) ("view_jobs" == p) ("view_costs" == p) ("view_dashboard" == p)
      ("approve_hitl" == p) ("retry_jobs" == p) ("manage_secrets" == p) ("reset_memory" == p)
      ("view_dlq" == p) ("manage_users" == p) ("view_audit_logs" == p)

allowed : (a : Bool) → some a ≡ some true → a ≡ true
allowed true e = refl
allowed false e = absurd (ground (arith, e))

nested :
    (low high : Role) (p : String)
    → rank low ≤ rank high
    → contains p (permissions low) ≡ true
    → contains p (permissions high) ≡ true
nested viewer viewer p le h = h
nested viewer analyst p le h = viewer-analyst p h
nested viewer admin p le h = analyst-admin p (viewer-analyst p h)
nested analyst viewer p le h = absurd (omega (arith, le))
nested analyst analyst p le h = h
nested analyst admin p le h = analyst-admin p h
nested admin viewer p le h = absurd (omega (arith, le))
nested admin analyst p le h = absurd (omega (arith, le))
nested admin admin p le h = h

-- The roles are ordered, viewer below analyst below administrator: what one tenant may do, another
-- may do whose role is the same or a higher one.
pub has_permission-nested :
    (low high : Role) (tenant other : Tenant) (permission : String)
    → rank low ≤ rank high
    → role_of tenant ≡ some low
    → role_of other ≡ some high
    → has_permission tenant permission ≡ some true
    → has_permission other permission ≡ some true
unfolding has_permission
has_permission-nested low high tenant other permission le is_low is_high h =
    let held =
      allowed (contains permission (permissions low))
        (sym (ap (λ r. role_allows r permission) is_low) ∙ h) in
    ap (λ r. role_allows r permission) is_high ∙ ap some (nested low high permission le held)

module _ (R : Redis) (tenant_id user_id action resource : String) (success : Bool) (now : ℕ) where
  abbrev entry : AuditEntry
  entry = record {
    timestamp = now;
    tenant_id = tenant_id;
    user_id = user_id;
    action = action;
    resource = resource;
    success = success;
  }

  pushed :
      (s : R.Db)
      → R.peek (R.update (Key.audit tenant_id) (lpushed entry) s) (Key.audit tenant_id) 0
        ≡ some (entry ∷ get_or (get R (Key.audit tenant_id) s) [])
  pushed s = elim (Option-cases (R.peek s (Key.audit tenant_id) 0)) [
    | inl absent ↦ rw (R.peek-update_self, absent) refl
    | inr (old, found) ↦ rw (R.peek-update_self, found) refl
  ]

  live :
      {s : R.Db} {log : List AuditEntry}
      → R.peek s (Key.audit tenant_id) 0 ≡ some log
      → (d : ℕ) → d < audit_log_ttl
      → R.peek (R.expire (Key.audit tenant_id) audit_log_ttl s) (Key.audit tenant_id) d ≡ some log
  live {s} h d alive = ground (arith, R.peek-expire_self (Key.audit tenant_id) audit_log_ttl s d, h)

  audit_log_self :
      (d : ℕ) (s : R.Db)
      → d < audit_log_ttl
      → R.peek (audit_log R tenant_id user_id action resource success now s) (Key.audit tenant_id) d
        ≡ some (entry ∷ take 9999 (get_or (get R (Key.audit tenant_id) s) []))
  unfolding audit_log
  audit_log_self d s alive =
      let k = Key.audit tenant_id in
      let s1 = R.update k (lpushed entry) s in
      let s2 = R.expire k audit_log_ttl s1 in
      let kept = live (pushed s) in
      rw (audit_log, R.peek-update_self k (ltrimmed 10000) s2 d, kept 0 (omega arith), kept d alive)
        refl

  pub audit_log-other :
      (k : Key) (d : ℕ) (s : R.Db)
      → Key.audit tenant_id ≢ k
      → R.peek (audit_log R tenant_id user_id action resource success now s) k d ≡ R.peek s k d
  unfolding audit_log
  audit_log-other k d s ne =
      let key = Key.audit tenant_id in
      R.peek-update_ne key k _ _ d ne
      ∙ R.peek-expire_ne key k _ _ d ne
      ∙ R.peek-update_ne key k _ s d ne

  -- An entry that is logged comes first in the tenant's log for 90 days, in front of what was
  -- there, of which no more than 9,999 entries are kept; the log of another tenant is unchanged.
  pub get_audit_logs-audit_log :
      (limit elapsed : ℕ) (other : String) (s : R.Db)
      → elapsed < audit_log_ttl
      → let t = R.elapse elapsed (audit_log R tenant_id user_id action resource success now s) in
        get_audit_logs R other (suc limit) t ≡ (
          if tenant_id == other
          then record {
            timestamp = now;
            tenant_id = tenant_id;
            user_id = user_id;
            action = action;
            resource = resource;
            success = success;
          }
            ∷ take limit (take 9999 (get_or (get R (Key.audit tenant_id) s) []))
          else get_audit_logs R other (suc limit) (R.elapse elapsed s))
  unfolding audit_log get_audit_logs
  get_audit_logs-audit_log limit elapsed other s alive =
      let s' = audit_log R tenant_id user_id action resource success now s in
      elim (Bool-cases (tenant_id == other)) [
        | inl same ↦ rw same (
            subst
              (λ o.
                get_audit_logs R o (suc limit) (R.elapse elapsed s')
                ≡ entry ∷ take limit (take 9999 (get_or (get R (Key.audit tenant_id) s) [])))
              ((eq_iff tenant_id other).0 same)
              (ap (λ o. take (suc limit) (get_or o []))
                (R.peek-elapse elapsed s' (Key.audit tenant_id) 0
                  ∙ audit_log_self (elapsed + 0) s (omega (arith, alive)))))
        | inr differs ↦ rw differs (
            ap (λ o. take (suc limit) (get_or o []))
              (R.peek-elapse elapsed s' (Key.audit other) 0
                ∙ audit_log-other (Key.audit other) (elapsed + 0) s
                    (ground (arith, eq_iff tenant_id other, differs))
                ∙ sym (R.peek-elapse elapsed s (Key.audit other) 0)))
      ]
