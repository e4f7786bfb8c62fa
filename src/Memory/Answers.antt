-- ===== src/Memory/Answers.antt =====
-- What is answered to an outcome, by the forecast that it is compared with.
use multiagent_platform_v.Prelude.{
  Bool-cases, String, if◌then◌else◌, inl, inr, refl, some, ℕ, ℤ, ◌≡◌,
}
use multiagent_platform_v.Documents.{DecisionMemory}
use multiagent_platform_v.Redis.{Key, Redis}
use multiagent_platform_v.Memory.{accuracy_of, predicted_of}
use multiagent_platform_v.Memory.Safety.{
  MemorySettings, Saving, anomaly, is_anomaly, is_below_floor, outcome_compared, reset_below_floor,
  save_actual_outcome_safe, save_compared, saved,
}

abbrev pub answer_by : MemorySettings → (actual : ℤ) → (predicted : ℕ) → Saving
answer_by settings actual predicted =
    if is_anomaly settings actual predicted
    then anomaly actual predicted
    else if is_below_floor settings actual predicted
    then reset_below_floor
    else saved (some (accuracy_of actual predicted))

module _ (R : Redis) (tenant_id sector product_id : String) (settings : MemorySettings)
    (actual_demand : ℤ) (now : ℕ) where
  compared_answer :
      (memory : DecisionMemory) (predicted : ℕ) (s : R.Db)
      → predicted_of memory ≡ some predicted
      → (save_compared R tenant_id sector product_id settings actual_demand now memory
          (some predicted)
          s).0
        ≡ answer_by settings actual_demand predicted
  unfolding save_compared outcome_compared accuracy_of
  compared_answer memory predicted s forecast =
      elim (Bool-cases (is_anomaly settings actual_demand predicted)) [
        | inl odd ↦ rw (save_compared, odd) refl
        | inr even ↦ elim (Bool-cases (is_below_floor settings actual_demand predicted)) [
          | inl low ↦ rw (save_compared, even, low) refl
          | inr fine ↦ rw (save_compared, even, fine) refl
        ]
      ]

  pub save_actual_outcome_safe_answer :
      (memory : DecisionMemory) (predicted : ℕ) (s : R.Db)
      → R.peek s (Key.last_decision tenant_id sector product_id) 0 ≡ some memory
      → predicted_of memory ≡ some predicted
      → (save_actual_outcome_safe R tenant_id sector product_id settings actual_demand now s).0
        ≡ answer_by settings actual_demand predicted
  unfolding save_actual_outcome_safe
  save_actual_outcome_safe_answer memory predicted s stored forecast =
      rw (save_actual_outcome_safe, stored, forecast) (compared_answer memory predicted s forecast)
