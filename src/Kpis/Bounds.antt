-- ===== src/Kpis/Bounds.antt =====
-- The ranges of the figures in a report, and what is in a report after a decision was recorded.
use native.Mathlib.Nat.{add-zero}
use multiagent_platform_v.Prelude.{
  Bool-cases, List, Option-cases, String, [], arith, get_or, inl, inr, keep, leb, length,
  length-keep-le, max, refl, round_ℕ, round_ℕ_bounds, some, take, true, ℕ, ◌*◌, ◌+◌, ◌-◌, ◌<◌, ◌==◌,
  ◌∙◌, ◌∷◌, ◌≡◌, ◌≤◌,
}
use multiagent_platform_v.Documents.{DecisionEntry, DecisionOutcome}
use multiagent_platform_v.Redis.{Key, Redis}
use multiagent_platform_v.Redis.Commands.{get, lpushed, ltrimmed}
use multiagent_platform_v.Kpis.Report.{
  count_in, count_urgencies, decisions_ttl, get_decisions, has_errors, has_succeeded,
  record_decision_outcome, report_of,
}

-- all that was counted

abbrev pub counted_all : List (String × ℕ) → ℕ
counted_all [] = 0
counted_all ((u, n) ∷ counts) = n + counted_all counts

counted_all-count_in :
    (u : String) (counts : List (String × ℕ))
    → counted_all (count_in u counts) ≡ counted_all counts + 1
counted_all-count_in u [] = omega arith
counted_all-count_in u ((v, n) ∷ counts) = elim (Bool-cases (v == u)) [
  | inl same ↦ rw same (omega arith)
  | inr other ↦ rw other (omega (arith, counted_all-count_in u counts))
]

counted_all-count_urgencies :
    (ds : List DecisionEntry) (counts : List (String × ℕ))
    → counted_all (count_urgencies ds counts) ≡ length ds + counted_all counts
counted_all-count_urgencies [] counts = omega arith
counted_all-count_urgencies (d ∷ ds) counts =
    let u = get_or d.outcome.urgency "LOW" in
    omega (arith, counted_all-count_urgencies ds (count_in u counts), counted_all-count_in u counts)

-- a share of the decisions is at most 100 %
share_le : (part total : ℕ) → 0 < total → part ≤ total → round_ℕ (1000 * part) total ≤ 1000
share_le part total filled le =
    (round_ℕ_bounds 0 1000 (1000 * part) total filled (omega arith) (omega arith)).1

-- The figures of a report on at least one decision are in range: the shares of successes and of
-- decisions that asked for a reviewer are at most 100 %; the reliability of the agents, three
-- calls to a decision and one error at most, is between 66.6 % and 100 %; and the urgencies that
-- are counted are as many as the decisions.
pub report_of_bounds :
    (savings : ℕ) (decisions : List DecisionEntry) (costs : List ℕ)
    → 0 < length decisions
    → let r = report_of savings decisions costs in
      (r.success_rate ≤ 1000)
      × (r.hitl_rate ≤ 1000)
      × (666 ≤ r.agent_reliability)
      × (r.agent_reliability ≤ 1000)
      × (counted_all r.urgency_distribution ≡ r.total_decisions)
unfolding report_of
report_of_bounds savings decisions costs nonempty =
    let total = length decisions in
    let errors = length (keep has_errors decisions) in
    let few : errors ≤ total = length-keep-le has_errors decisions in
    let calls = max (total * 3) 1 in
    let rate =
      round_ℕ_bounds 0 334 (1000 * errors) calls (omega arith) (omega arith) (omega arith) in
    (
      share_le _ total nonempty (length-keep-le has_succeeded decisions),
      share_le _ total nonempty (length-keep-le (λ d. d.outcome.requires_human) decisions),
      omega (arith, rate.1),
      omega arith,
      counted_all-count_urgencies decisions _ ∙ add-zero total,
    )

module _ (R : Redis) (tenant_id job_id : String) (outcome : DecisionOutcome) (now : ℕ) where
  abbrev key : Key
  key = Key.decisions tenant_id

  abbrev entry : DecisionEntry
  entry = record { job_id = job_id; timestamp = now; outcome = outcome }

  pushed :
      (s : R.Db)
      → R.peek (R.update key (lpushed entry) s) key 0 ≡ some (entry ∷ get_or (get R key s) [])
  pushed s = elim (Option-cases (R.peek s key 0)) [
    | inl absent ↦ rw (R.peek-update_self, absent) refl
    | inr (old, found) ↦ rw (R.peek-update_self, found) refl
  ]

  recorded :
      (s : R.Db)
      → R.peek (record_decision_outcome R tenant_id job_id outcome now s) key 0
        ≡ some (entry ∷ take 9999 (get_or (get R key s) []))
  unfolding record_decision_outcome
  recorded s =
      let s1 = R.update key (lpushed entry) s in
      let s2 = R.expire key decisions_ttl s1 in
      let kept : R.peek s2 key 0 ≡ some (entry ∷ get_or (get R key s) []) =
        R.peek-expire_self key decisions_ttl s1 0 ∙ pushed s in
      rw (record_decision_outcome, R.peek-update_self key (ltrimmed 10000) s2 0, kept) refl

  -- A decision that is recorded comes first in every report of the same moment, and the others that
  -- are kept stay as they were, up to 9,999 of them.
  pub get_decisions-record :
      (days : ℕ) (s : R.Db)
      → get_decisions R tenant_id days now
          (record_decision_outcome R tenant_id job_id outcome now s)
        ≡ record { job_id = job_id; timestamp = now; outcome = outcome }
          ∷ keep
              (λ d. leb (now - days * 86400) d.timestamp)
              (take 9999 (get_or (get R (Key.decisions tenant_id) s) []))
  unfolding get_decisions
  get_decisions-record days s =
      let recent : leb (now - days * 86400) now ≡ true = ground arith in
      rw (get_decisions, recorded s, keep, recent) refl
