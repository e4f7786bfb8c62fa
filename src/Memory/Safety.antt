-- ===== src/Memory/Safety.antt =====
-- core/memory_safety.py: an outcome is compared with the prediction before it is kept. The two
-- settings of the environment are arguments, in thousandths; a threshold is not 0.
use multiagent_platform_v.Prelude.{
  Bool, List, Option, String, [], get_or, if◌then◌else◌, ltb_ℤ, none, pos, round_ℤ, scale_ℤ, some,
  take, ℕ, ℤ, ◌*◌, ◌||◌,
}
use multiagent_platform_v.Documents.{DecisionMemory, ResetEntry, ResetReason}
use multiagent_platform_v.Redis.{Key, Redis}
use multiagent_platform_v.Redis.Commands.{exists, get, lpushed, setex}
use multiagent_platform_v.Memory.{margin, memory_ttl, predicted_of}

-- MEMORY_ACCURACY_FLOOR and MEMORY_ANOMALY_THRESHOLD

pub record MemorySettings : Type 0 where
  pub accuracy_floor : ℕ
  pub anomaly_threshold : ℕ

-- what `save_actual_outcome_safe` returns, less the texts
pub data Saving : Type 0 where
  no_prediction : Saving
  anomaly : (actual : ℤ) → (predicted : ℕ) → Saving
  reset_below_floor : Saving
  saved : (accuracy : Option ℤ) → Saving

-- `ratio > ANOMALY_THRESHOLD or ratio < (1 / ANOMALY_THRESHOLD)`
abbrev pub is_anomaly : MemorySettings → ℤ → ℕ → Bool
is_anomaly settings actual predicted =
    ltb_ℤ (pos (settings.anomaly_threshold * predicted)) (scale_ℤ 1000 actual)
    || ltb_ℤ (scale_ℤ settings.anomaly_threshold actual) (pos (1000 * predicted))

-- `accuracy < ACCURACY_FLOOR`, before it is rounded
abbrev pub is_below_floor : MemorySettings → ℤ → ℕ → Bool
is_below_floor settings actual predicted =
    ltb_ℤ (scale_ℤ 1000 (margin actual predicted)) (pos (settings.accuracy_floor * predicted))

-- the memory with its outcome, and with the accuracy if there was a prediction to test; the same as
-- in core/memory.py, written once more
unfoldable pub outcome_compared :
    (actual_demand : ℤ) → (now : ℕ) → (predicted : Option ℕ) → DecisionMemory → DecisionMemory
outcome_compared actual_demand now none memory = record memory {
  actual_outcome = some (record { actual_demand = actual_demand; recorded_at = now });
}
outcome_compared actual_demand now (some predicted) memory = record memory {
  actual_outcome = some (record { actual_demand = actual_demand; recorded_at = now });
  forecast_accuracy =
      some (round_ℤ (scale_ℤ 1000 (margin actual_demand predicted)) (pos predicted));
}

module _ (R : Redis) (tenant_id sector product_id : String) where
  -- whether there was something to reset
  unfoldable pub reset_memory : ResetReason → (now : ℕ) → R.Db → Bool × R.Db
  reset_memory reason now s =
      let key = Key.last_decision tenant_id sector product_id in
      let log_key = Key.reset_log tenant_id sector product_id in
      let entry : ResetEntry = record {
        reset_at = now;
        reason = reason;
        tenant_id = tenant_id;
        product_id = product_id;
      } in
      (
        exists R key s,
        R.expire log_key memory_ttl (R.update log_key (lpushed entry) (R.delete key s)),
      )

  unfoldable pub get_reset_log : R.Db → List ResetEntry
  get_reset_log s = take 10 (get_or (get R (Key.reset_log tenant_id sector product_id) s) [])

  abbrev pub keep_outcome :
      ℤ → (now : ℕ) → (predicted : Option ℕ) → DecisionMemory → R.Db → Saving × R.Db
  keep_outcome actual_demand now predicted memory s =
      let memory' = outcome_compared actual_demand now predicted memory in
      (
        saved memory'.forecast_accuracy,
        setex R (Key.last_decision tenant_id sector product_id) memory_ttl memory' s,
      )

  unfoldable pub save_compared :
      MemorySettings
      → ℤ
      → (now : ℕ) → DecisionMemory
      → (predicted : Option ℕ) → R.Db
      → Saving × R.Db
  unfolding reset_memory outcome_compared
  save_compared settings actual_demand now memory none s =
      keep_outcome actual_demand now none memory s
  save_compared settings actual_demand now memory (some predicted) s =
      if is_anomaly settings actual_demand predicted
      then (anomaly actual_demand predicted, s)
      else if is_below_floor settings actual_demand predicted
      then (reset_below_floor, (reset_memory ResetReason.auto_accuracy_floor now s).1)
      else keep_outcome actual_demand now (some predicted) memory s

  unfoldable pub save_actual_outcome_safe :
      MemorySettings → (actual_demand : ℤ) → (now : ℕ) → R.Db → Saving × R.Db
  unfolding save_compared
  save_actual_outcome_safe settings actual_demand now s =
      elim (get R (Key.last_decision tenant_id sector product_id) s) [
        | none ↦ (no_prediction, s)
        | some memory ↦ save_compared settings actual_demand now memory (predicted_of memory) s
      ]
