-- ===== src/Memory/Adjustment.antt =====
-- How far the outcome of the last forecast moves the next one.
use multiagent_platform_v.Prelude.{
  Bool-cases, Option-cases, String, arith, inl, inr, leb_ℤ, max, min, negsuc, pos, round_ℕ_bounds,
  some, ℕ, ℤ, ◌*◌, ◌+◌, ◌<◌, ◌≡◌, ◌≤◌,
}
use multiagent_platform_v.Documents.{DecisionMemory}
use multiagent_platform_v.Redis.{Redis}
use multiagent_platform_v.Memory.{
  adjustment_of, factor_by, factor_of, get_adjustment_factor, get_last_decision, positive,
  predicted_of,
}

-- between one half and three halves, and towards the side on which the outcome was

adjustment_of_bounds :
    (actual predicted : ℕ)
    → 0 < predicted
    → (500 ≤ adjustment_of actual predicted)
      × (adjustment_of actual predicted ≤ 1500)
      × (actual ≤ predicted → adjustment_of actual predicted ≤ 1000)
      × (predicted ≤ actual → 1000 ≤ adjustment_of actual predicted)
unfolding adjustment_of
adjustment_of_bounds a p p>0 =
    let n = 1000 * max p (min (3 * p) (a + p)) in
    let all = round_ℕ_bounds 500 1500 n (2 * p) (omega arith) (omega arith) (omega arith) in
    (
      all.0,
      all.1,
      λ h. (round_ℕ_bounds 500 1000 n (2 * p) (omega arith) (omega arith) (omega arith)).1,
      λ h. (round_ℕ_bounds 1000 1500 n (2 * p) (omega arith) (omega arith) (omega arith)).0,
    )

pub positive-lt : (z : ℤ) {n : ℕ} → positive z ≡ some n → (0 < n) × (z ≡ pos n)
positive-lt (pos n) h = ground arith
positive-lt (negsuc n) h = cc

abbrev pub IsModerate : ℕ → Type 0
IsModerate factor = (500 ≤ factor) × (factor ≤ 1500)

pub predicted_of-lt : (memory : DecisionMemory) {n : ℕ} → predicted_of memory ≡ some n → 0 < n
predicted_of-lt memory h = elim (Option-cases memory.recommendation) [
  | inl none_made ↦ absurd (ground (arith, none_made))
  | inr (sales, made) ↦ (positive-lt sales.adjusted_30_days (rw made at h)).0
]

factor_by-IsModerate :
    (memory : DecisionMemory) (actual : ℤ)
    → IsModerate (factor_by (positive actual) (predicted_of memory))
factor_by-IsModerate memory actual = elim (Option-cases (positive actual)) [
  | inl no_actual ↦ rw no_actual (omega arith, omega arith)
  | inr (a, is_actual) ↦ elim (Option-cases (predicted_of memory)) [
    | inl no_forecast ↦ rw (is_actual, no_forecast) (omega arith, omega arith)
    | inr (p, forecast) ↦
        let (low, high, down, up) = adjustment_of_bounds a p (predicted_of-lt memory forecast) in
        rw (is_actual, forecast) (low, high)
  ]
]

factor_of-IsModerate : (memory : DecisionMemory) → IsModerate (factor_of memory)
unfolding factor_of
factor_of-IsModerate memory = elim (Option-cases memory.actual_outcome) [
  | inl unknown ↦ rw (factor_of, unknown) (omega arith, omega arith)
  | inr (outcome, known) ↦ elim (Option-cases memory.forecast_accuracy) [
    | inl unrated ↦ rw (factor_of, known, unrated) (omega arith, omega arith)
    | inr (accuracy, rated) ↦ elim (Bool-cases (leb_ℤ (pos 900) accuracy)) [
      | inl good ↦ rw (factor_of, known, rated, good) (omega arith, omega arith)
      | inr poor ↦
          rw (factor_of, known, rated, poor) (factor_by-IsModerate memory outcome.actual_demand)
    ]
  ]
]

module _ (R : Redis) (tenant_id sector product_id : String) where
  -- Whatever is remembered, the factor for the next forecast is between 0.5 and 1.5.
  pub get_adjustment_factor_bounds :
      (s : R.Db) → IsModerate (get_adjustment_factor R tenant_id sector product_id s)
  unfolding get_adjustment_factor
  get_adjustment_factor_bounds s =
      elim (Option-cases (get_last_decision R tenant_id sector product_id s)) [
        | inl forgotten ↦ rw (get_adjustment_factor, forgotten) (omega arith, omega arith)
        | inr (memory, found) ↦ rw (get_adjustment_factor, found) (factor_of-IsModerate memory)
      ]
