-- ===== src/Memory/Outcomes.antt =====
-- Recording an outcome the safe way, against `save_actual_outcome`.
use multiagent_platform_v.Prelude.{
  Bool, Bool-cases, Option, Option-cases, String, arith, false, inl, inr, none, refl, some, true, ℕ,
  ℤ, ◌∙◌, ◌≡◌,
}
use multiagent_platform_v.Documents.{DecisionMemory, ResetReason}
use multiagent_platform_v.Redis.{Key, Redis}
use multiagent_platform_v.Memory.{
  accuracy_of, get_last_decision, memory_ttl, predicted_of, save_actual_outcome, with_outcome,
}
use multiagent_platform_v.Memory.Safety.{
  MemorySettings, Saving, anomaly, is_anomaly, is_below_floor, keep_outcome, no_prediction,
  outcome_compared, reset_below_floor, reset_memory, save_actual_outcome_safe, save_compared, saved,
}

-- the two copies of the code that puts an outcome into a memory agree

pub outcome_compared-with_outcome :
    (actual_demand : ℤ) (now : ℕ) (memory : DecisionMemory) (predicted : Option ℕ)
    → predicted_of memory ≡ predicted
    → outcome_compared actual_demand now predicted memory ≡ with_outcome actual_demand now memory
unfolding outcome_compared with_outcome accuracy_of
outcome_compared-with_outcome actual_demand now memory none forecast =
    rw (with_outcome, forecast) refl
outcome_compared-with_outcome actual_demand now memory (some predicted) forecast =
    rw (with_outcome, forecast) refl

module _ (R : Redis) (tenant_id sector product_id : String) (actual_demand : ℤ) (now : ℕ) where
  abbrev key : Key
  key = Key.last_decision tenant_id sector product_id

  abbrev pub unchecked : R.Db → R.Db
  unchecked s = save_actual_outcome R tenant_id sector product_id actual_demand now s

  -- the outcome is saved: the same is left as by `save_actual_outcome`, and the answer has the
  -- accuracy that is then remembered
  abbrev pub IsKept : Saving → (s t : R.Db) → Type 0
  IsKept r s t =
      (t ≡ unchecked s)
      × (memory : DecisionMemory) × (get_last_decision R tenant_id sector product_id t
          ≡ some memory)
      × (r ≡ saved memory.forecast_accuracy)

  -- by whether the outcome is an anomaly for the prediction, and whether its accuracy is too poor
  abbrev pub LeavesTested : (odd poor : Bool) → (predicted : ℕ) → Saving → (s t : R.Db) → Type 0
  LeavesTested true poor predicted r s t = (r ≡ anomaly actual_demand predicted) × (t ≡ s)
  LeavesTested false true predicted r s t =
      (r ≡ reset_below_floor) × ((d : ℕ) → R.peek t key d ≡ none)
  LeavesTested false false predicted r s t = IsKept r s t

  module _ (settings : MemorySettings) where
    -- by the prediction of the decision that is remembered
    abbrev pub LeavesBy : Option ℕ → Saving → (s t : R.Db) → Type 0
    LeavesBy none r s t = IsKept r s t
    LeavesBy (some predicted) r s t =
        LeavesTested (is_anomaly settings actual_demand predicted)
          (is_below_floor settings actual_demand predicted) predicted r s t

    -- by the decision that is remembered
    abbrev pub Leaves : Option DecisionMemory → Saving → (s t : R.Db) → Type 0
    Leaves none r s t = (r ≡ no_prediction) × (t ≡ s) × (unchecked s ≡ s)
    Leaves (some memory) r s t = LeavesBy (predicted_of memory) r s t

    abbrev pub checked : R.Db → Saving × R.Db
    checked s = save_actual_outcome_safe R tenant_id sector product_id settings actual_demand now s

    keep_outcome-IsKept :
        (memory : DecisionMemory) (predicted : Option ℕ) (s : R.Db)
        → get_last_decision R tenant_id sector product_id s ≡ some memory
        → predicted_of memory ≡ predicted
        → let (r, t) =
            keep_outcome R tenant_id sector product_id actual_demand now predicted memory s in
          IsKept r s t
    unfolding save_actual_outcome
    keep_outcome-IsKept memory predicted s found forecast =
        let same = outcome_compared-with_outcome actual_demand now memory predicted forecast in
        (
          rw (save_actual_outcome, found, same) refl,
          outcome_compared actual_demand now predicted memory,
          R.peek-store_self key (outcome_compared actual_demand now predicted memory)
              (some memory_ttl) s 0,
          refl,
        )

    reset_memory-forgets :
        (s : R.Db) (d : ℕ)
        → R.peek
            (reset_memory R tenant_id sector product_id ResetReason.auto_accuracy_floor now s).1
            key
            d
          ≡ none
    unfolding reset_memory
    reset_memory-forgets s d =
        let log_key = Key.reset_log tenant_id sector product_id in
        R.peek-expire_ne log_key key memory_ttl _ d (ground arith)
        ∙ R.peek-update_ne log_key key _ _ d (ground arith)
        ∙ R.peek-delete_self key s d

    compared-LeavesBy :
        (memory : DecisionMemory) (predicted : Option ℕ) (s : R.Db)
        → get_last_decision R tenant_id sector product_id s ≡ some memory
        → predicted_of memory ≡ predicted
        → let (r, t) =
            save_compared R tenant_id sector product_id settings actual_demand now memory predicted
              s in
          LeavesBy predicted r s t
    unfolding save_compared
    compared-LeavesBy memory none s found forecast =
        keep_outcome-IsKept memory none s found forecast
    compared-LeavesBy memory (some predicted) s found forecast =
        elim (Bool-cases (is_anomaly settings actual_demand predicted)) [
          | inl odd ↦ rw (save_compared, odd) (refl, refl)
          | inr even ↦ elim (Bool-cases (is_below_floor settings actual_demand predicted)) [
            | inl low ↦ rw (save_compared, even, low) (refl, reset_memory-forgets s)
            | inr fine ↦
                rw (save_compared, even, fine)
                  (keep_outcome-IsKept memory (some predicted) s found forecast)
          ]
        ]

    -- The safe way of recording an outcome, by the decision that is remembered. There is none: it
    -- answers so, and neither way changes anything. The outcome is an anomaly for the prediction: it
    -- answers so and changes nothing. It is none, but its accuracy is below the floor: the decision
    -- is forgotten. Else, and where there is no positive prediction: it leaves what
    -- `save_actual_outcome` leaves, and answers with the accuracy that is then remembered.
    pub save_actual_outcome_safe-Leaves :
        (s : R.Db)
        → let (r, t) = checked s in Leaves (get_last_decision R tenant_id sector product_id s) r s t
    unfolding save_actual_outcome_safe save_actual_outcome
    save_actual_outcome_safe-Leaves s =
        elim (Option-cases (get_last_decision R tenant_id sector product_id s)) [
          | inl forgotten ↦
              rw (save_actual_outcome_safe, forgotten)
                (refl, refl, rw (save_actual_outcome, forgotten) refl)
          | inr (memory, found) ↦
              rw (save_actual_outcome_safe, found)
                (compared-LeavesBy memory (predicted_of memory) s found refl)
        ]
