-- ===== src/Kpis/Report.antt =====
-- core/kpis.py: the decisions that are kept for a tenant, and the figures that are computed from
-- them. Rates and percentages are in tenths of a per cent, the cost of a decision in ten-thousandths
-- of a dollar, the return in cents, latencies in tenths of a second. Nothing calls
-- `record_decision_outcome`.
use multiagent_platform_v.Prelude.{
  Bool, List, Option, String, [], add_ℤ, diff, eqb, false, get_or, if◌then◌else◌, keep, leb, length,
  ltb_ℤ, max, negsuc, none, not, pos, round_ℕ, round_ℤ, some, suc, true, zero, ℕ, ℤ, ◌*◌, ◌+◌, ◌-◌,
  ◌==◌, ◌∷◌,
}
use multiagent_platform_v.Documents.{DecisionEntry, DecisionOutcome}
use multiagent_platform_v.Redis.{Key, Redis}
use multiagent_platform_v.Redis.Commands.{get, lpushed, ltrimmed}
use multiagent_platform_v.Kpis.{Health, compute_health}

-- 90 days

abbrev pub decisions_ttl : ℕ
decisions_ttl = 7776000

-- `x for d in decisions if (x := d.get(key))`: a 0 is left out too
abbrev pub is_zero : ℤ → Bool
is_zero (pos n) = eqb n 0
is_zero (negsuc _) = false

abbrev pub scores : List DecisionEntry → List ℤ
scores [] = []
scores (d ∷ ds) = elim d.outcome.forecast_accuracy [
  | none ↦ scores ds
  | some a ↦ elim (is_zero a) [ true ↦ scores ds | false ↦ a ∷ scores ds ]
]

abbrev pub latencies : List DecisionEntry → List ℕ
latencies [] = []
latencies (d ∷ ds) = elim d.outcome.latency_seconds [
  | none ↦ latencies ds
  | some l ↦ elim (eqb l 0) [ true ↦ latencies ds | false ↦ l ∷ latencies ds ]
]

abbrev pub sum : List ℕ → ℕ
sum [] = 0
sum (n ∷ ns) = n + sum ns

abbrev pub sum_ℤ : List ℤ → ℤ
sum_ℤ [] = pos 0
sum_ℤ (z ∷ zs) = add_ℤ z (sum_ℤ zs)

-- `f"{accuracy}%" if accuracy else "N/A"`
abbrev pub shown : Option ℤ → Option ℤ
shown none = none
shown (some z) = elim (is_zero z) [ true ↦ none | false ↦ some z ]

-- an average in thousandths is one in tenths of a per cent
unfoldable pub average_accuracy : List ℤ → Option ℤ
average_accuracy [] = none
average_accuracy (z ∷ zs) = some (round_ℤ (sum_ℤ (z ∷ zs)) (pos (length (z ∷ zs))))

unfoldable pub average_latency : List ℕ → Option ℕ
average_latency [] = none
average_latency (n ∷ ns) = some (round_ℕ (sum (n ∷ ns)) (length (n ∷ ns)))

-- `d.get("forecast_accuracy", 0) > 0.85`
abbrev pub is_accurate : DecisionEntry → Bool
is_accurate d = ltb_ℤ (pos 850) (get_or d.outcome.forecast_accuracy (pos 0))

abbrev pub has_errors : DecisionEntry → Bool
has_errors d = elim d.outcome.errors [ [] ↦ false | _ ∷ _ ↦ true ]

abbrev pub has_succeeded : DecisionEntry → Bool
has_succeeded d = elim d.outcome.status [ none ↦ true | some status ↦ not (status == "error") ]

-- `urgency_counts[u] = urgency_counts.get(u, 0) + 1`
abbrev pub count_in : String → List (String × ℕ) → List (String × ℕ)
count_in u [] = (u, 1) ∷ []
count_in u ((v, n) ∷ counts) = if v == u then (v, n + 1) ∷ counts else (v, n) ∷ count_in u counts

abbrev pub count_urgencies : List DecisionEntry → List (String × ℕ) → List (String × ℕ)
count_urgencies [] counts = counts
count_urgencies (d ∷ ds) counts =
    count_urgencies ds (count_in (get_or d.outcome.urgency "LOW") counts)

pub record Report : Type 0 where
  pub total_decisions : ℕ
  pub success_rate : ℕ
  pub avg_latency_seconds : Option ℕ
  pub decision_accuracy : Option ℤ
  pub hitl_rate : ℕ
  pub estimated_roi : ℤ
  pub cost_per_decision : ℕ
  pub agent_reliability : ℕ
  pub accurate_decisions : ℕ
  pub hitl_interventions : ℕ
  pub total_cost : ℕ
  pub agent_errors : ℕ
  pub urgency_distribution : List (String × ℕ)
  pub health : Health

-- `savings` is ROI_SAVINGS_PER_DECISION; savings and costs in millionths of a dollar
unfoldable pub report_of : (savings : ℕ) → List DecisionEntry → (costs : List ℕ) → Report
unfolding average_accuracy average_latency
report_of savings decisions costs =
    let total = length decisions in
    let accuracy = average_accuracy (scores decisions) in
    let hitl_count = length (keep (λ d. d.outcome.requires_human) decisions) in
    let errors = length (keep has_errors decisions) in
    let accurate = length (keep is_accurate decisions) in
    let hitl_rate = round_ℕ (1000 * hitl_count) total in
    let reliability = 1000 - round_ℕ (1000 * errors) (max (total * 3) 1) in
    record {
      total_decisions = total;
      success_rate = round_ℕ (1000 * length (keep has_succeeded decisions)) total;
      avg_latency_seconds = average_latency (latencies decisions);
      decision_accuracy = shown accuracy;
      hitl_rate = hitl_rate;
      estimated_roi = round_ℤ (diff (accurate * savings) (sum costs)) (pos 10000);
      cost_per_decision = round_ℕ (sum costs) (100 * total);
      agent_reliability = reliability;
      accurate_decisions = accurate;
      hitl_interventions = hitl_count;
      total_cost = round_ℕ (sum costs) 100;
      agent_errors = errors;
      urgency_distribution =
          count_urgencies decisions (("LOW", 0) ∷ ("MEDIUM", 0) ∷ ("HIGH", 0) ∷ []);
      health = compute_health accuracy (pos hitl_rate) (pos reliability);
    }

module _ (R : Redis) (tenant_id : String) where
  unfoldable pub record_decision_outcome :
      (job_id : String) → DecisionOutcome → (now : ℕ) → R.Db → R.Db
  record_decision_outcome job_id outcome now s =
      let key = Key.decisions tenant_id in
      let entry : DecisionEntry = record { job_id = job_id; timestamp = now; outcome = outcome } in
      R.update key (ltrimmed 10000) (R.expire key decisions_ttl (R.update key (lpushed entry) s))

  -- those of the last days
  unfoldable pub get_decisions : (days now : ℕ) → R.Db → List DecisionEntry
  get_decisions days now s =
      keep (λ d. leb (now - days * 86400) d.timestamp)
        (get_or (get R (Key.decisions tenant_id) s) [])

  -- the counters of `today - i`, `today - i - 1`, ..., as many as there are days left
  unfoldable pub cost_history : (left today i : ℕ) → R.Db → List ℕ
  cost_history zero today i s = []
  cost_history (suc left) today i s = elim (get R (Key.cost_daily tenant_id (today - i)) s) [
    | none ↦ cost_history left today (i + 1) s
    | some cost ↦ cost ∷ cost_history left today (i + 1) s
  ]

  -- `none` is "No data yet"
  unfoldable pub get_business_kpis : (savings : ℕ) → (days now today : ℕ) → R.Db → Option Report
  unfolding get_decisions cost_history report_of
  get_business_kpis savings days now today s =
      let decisions = get_decisions days now s in
      if eqb (length decisions) 0
      then none
      else some (report_of savings decisions (cost_history days today 0 s))
