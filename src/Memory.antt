-- ===== src/Memory.antt =====
-- core/memory.py: the last decision for a product, and what its outcome says of the next one.
-- Demand is in whole units, accuracies and factors are in thousandths, and the quotients are exact.
pub mod Safety
pub mod Adjustment
pub mod Answers
pub mod Outcomes
pub mod Damping
mod Tests
use multiagent_platform_v.Prelude.{
  Option, String, diff, if◌then◌else◌, leb_ℤ, ltb, max, min, negsuc, none, pos, round_ℕ, round_ℤ,
  scale_ℤ, some, suc, ℕ, ℤ, ◌*◌, ◌+◌, ◌-◌,
}
use multiagent_platform_v.State.{SalesOutput}
use multiagent_platform_v.Documents.{Actual, DecisionMemory}
use multiagent_platform_v.Redis.{Key, Redis}
use multiagent_platform_v.Redis.Commands.{get, setex}

-- MEMORY_TTL, 30 days

abbrev pub memory_ttl : ℕ
memory_ttl = 2592000

-- `memory["recommendation"].get("adjusted_30_days")`, where it is above 0
abbrev pub positive : ℤ → Option ℕ
positive (pos n) = if ltb 0 n then some n else none
positive (negsuc _) = none

abbrev pub predicted_of : DecisionMemory → Option ℕ
predicted_of memory = elim memory.recommendation [
  | none ↦ none
  | some sales ↦ positive sales.adjusted_30_days
]

-- `abs(actual_demand - predicted)`
abbrev pub distance : ℤ → ℕ → ℕ
distance (pos n) predicted = (n - predicted) + (predicted - n)
distance (negsuc n) predicted = suc n + predicted

-- `1 - abs(actual_demand - predicted) / predicted`, times `predicted`
abbrev pub margin : ℤ → ℕ → ℤ
margin actual predicted = diff predicted (distance actual predicted)

unfoldable pub accuracy_of : ℤ → ℕ → ℤ
accuracy_of actual predicted = round_ℤ (scale_ℤ 1000 (margin actual predicted)) (pos predicted)

unfoldable pub with_outcome : (actual_demand : ℤ) → (now : ℕ) → DecisionMemory → DecisionMemory
with_outcome actual_demand now memory = record memory {
  actual_outcome = some (record { actual_demand = actual_demand; recorded_at = now });
  forecast_accuracy = elim (predicted_of memory) [
    | none ↦ memory.forecast_accuracy
    | some predicted ↦ some (accuracy_of actual_demand predicted)
  ];
}

-- `1.0 + (actual / predicted - 1.0) * 0.5`, between 0.5 and 1.5
unfoldable pub adjustment_of : (actual predicted : ℕ) → ℕ
adjustment_of actual predicted =
    round_ℕ (1000 * max predicted (min (3 * predicted) (actual + predicted))) (2 * predicted)

-- a decision whose outcome is known and whose accuracy is below 0.90
abbrev pub factor_by : (actual : Option ℕ) → (predicted : Option ℕ) → ℕ
factor_by (some actual) (some predicted) = adjustment_of actual predicted
factor_by _ _ = 1000

abbrev pub factor_known : DecisionMemory → Actual → (accuracy : ℤ) → ℕ
factor_known memory outcome accuracy =
    if leb_ℤ (pos 900) accuracy
    then 1000
    else factor_by (positive outcome.actual_demand) (predicted_of memory)

unfoldable pub factor_of : DecisionMemory → ℕ
unfolding adjustment_of
factor_of memory = elim memory.actual_outcome [
  | none ↦ 1000
  | some outcome ↦ elim memory.forecast_accuracy [
    | none ↦ 1000
    | some accuracy ↦ factor_known memory outcome accuracy
  ]
]

-- the sentences of `_generate_memory_note`
pub data Note : Type 0 where
  no_outcome : Note
  accurate : (accuracy : ℤ) → Note
  too_optimistic too_conservative : (accuracy : ℤ) → (adjustment : ℕ) → Note
  plain : (accuracy : ℤ) → Note

unfoldable pub generate_memory_note : Option ℤ → (adjustment : ℕ) → Note
generate_memory_note none adjustment = no_outcome
generate_memory_note (some accuracy) adjustment =
    if leb_ℤ (pos 900) accuracy
    then accurate accuracy
    else if ltb adjustment 1000
    then too_optimistic accuracy adjustment
    else if ltb 1000 adjustment
    then too_conservative accuracy adjustment
    else plain accuracy

pub record MemorySummary : Type 0 where
  pub last_decision_at : ℕ
  pub last_confidence : ℕ
  pub forecast_accuracy : Option ℤ
  pub adjustment_factor : ℕ
  pub note : Note

module _ (R : Redis) (tenant_id sector product_id : String) where
  unfoldable pub save_decision_memory :
      (recommendation : Option SalesOutput) → (confidence now : ℕ) → R.Db → R.Db
  save_decision_memory recommendation confidence now s =
      setex R (Key.last_decision tenant_id sector product_id) memory_ttl
        (record {
          timestamp = now;
          recommendation = recommendation;
          confidence = confidence;
          actual_outcome = none;
          forecast_accuracy = none;
        })
        s

  abbrev pub get_last_decision : R.Db → Option DecisionMemory
  get_last_decision s = get R (Key.last_decision tenant_id sector product_id) s

  unfoldable pub save_actual_outcome : (actual_demand : ℤ) → (now : ℕ) → R.Db → R.Db
  unfolding with_outcome
  save_actual_outcome actual_demand now s = elim (get_last_decision s) [
    | none ↦ s
    | some memory ↦
        setex R (Key.last_decision tenant_id sector product_id) memory_ttl
          (with_outcome actual_demand now memory) s
  ]

  unfoldable pub get_adjustment_factor : R.Db → ℕ
  unfolding factor_of
  get_adjustment_factor s = elim (get_last_decision s) [
    | none ↦ 1000
    | some memory ↦ factor_of memory
  ]

  -- `none` is "has_history": False
  unfoldable pub get_memory_summary : R.Db → Option MemorySummary
  unfolding get_adjustment_factor generate_memory_note
  get_memory_summary s = elim (get_last_decision s) [
    | none ↦ none
    | some memory ↦
        let adjustment = get_adjustment_factor s in
        some (record {
          last_decision_at = memory.timestamp;
          last_confidence = memory.confidence;
          forecast_accuracy = memory.forecast_accuracy;
          adjustment_factor = adjustment;
          note = generate_memory_note memory.forecast_accuracy adjustment;
        })
  ]
