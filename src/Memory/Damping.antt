-- ===== src/Memory/Damping.antt =====
-- The adjustment after an outcome that was recorded the safe way.
use multiagent_platform_v.Prelude.{
  Bool, Bool-cases, Option, Option-cases, String, arith, false, inl, inr, leb_ℤ, ltb, max, min,
  negsuc, none, pos, refl, round_ℕ_bounds, some, suc, true, zero, ℕ, ℤ, ◌*◌, ◌+◌, ◌<◌, ◌≡◌, ◌≤◌,
}
use multiagent_platform_v.Documents.{DecisionMemory}
use multiagent_platform_v.Redis.{Key, Redis}
use multiagent_platform_v.Redis.Commands.{setex}
use multiagent_platform_v.Memory.{
  accuracy_of, adjustment_of, factor_by, factor_of, get_adjustment_factor, get_last_decision,
  memory_ttl, positive, predicted_of, with_outcome,
}
use multiagent_platform_v.Memory.Safety.{
  MemorySettings, Saving, is_anomaly, is_below_floor, save_actual_outcome_safe, save_compared,
  saved,
}
use multiagent_platform_v.Memory.Adjustment.{predicted_of-lt}
use multiagent_platform_v.Memory.Outcomes.{outcome_compared-with_outcome}

abbrev pub IsDamped : ℕ → Type 0
IsDamped factor = (700 ≤ factor) × (factor ≤ 1300)

module _ (settings : MemorySettings) (floor : settings.accuracy_floor ≡ 400) where
  floor_near :
      (n p : ℕ) → is_below_floor settings (pos n) p ≡ false → (2 * p ≤ 5 * n) × (5 * n ≤ 8 * p)
  floor_near n p fine = ground arith

  adjustment_of-IsDamped :
      (n p : ℕ) → 0 < p → is_below_floor settings (pos n) p ≡ false → IsDamped (adjustment_of n p)
  unfolding adjustment_of
  adjustment_of-IsDamped n p p>0 fine =
      let (low, high) = floor_near n p fine in
      let m = 1000 * max p (min (3 * p) (n + p)) in
      let a : 700 * (2 * p) ≤ m = omega arith in
      let b : m ≤ 1300 * (2 * p) = omega arith in
      round_ℕ_bounds 700 1300 m (2 * p) (omega arith) a b

  factor_by-IsDamped :
      (actual : ℤ) (p : ℕ)
      → 0 < p
      → is_below_floor settings actual p ≡ false
      → IsDamped (factor_by (positive actual) (some p))
  factor_by-IsDamped (pos zero) p p>0 fine = (omega arith, omega arith)
  factor_by-IsDamped (pos (suc n)) p p>0 fine =
      let more : ltb 0 (suc n) ≡ true = ground arith in
      rw more (adjustment_of-IsDamped (suc n) p p>0 fine)
  factor_by-IsDamped (negsuc n) p p>0 fine = (omega arith, omega arith)

  factor_by-none : (actual : Option ℕ) → factor_by actual none ≡ 1000
  factor_by-none none = refl
  factor_by-none (some n) = refl

  kept-IsDamped :
      (memory : DecisionMemory) (actual : ℤ) (now : ℕ) (predicted : Option ℕ)
      → predicted_of memory ≡ predicted
      → ((p : ℕ) → predicted ≡ some p → is_below_floor settings actual p ≡ false)
      → IsDamped (factor_of (with_outcome actual now memory))
  unfolding factor_of with_outcome
  kept-IsDamped memory actual now none forecast fine =
      elim (Option-cases memory.forecast_accuracy) [
        | inl unrated ↦ rw (factor_of, with_outcome, forecast, unrated) (omega arith, omega arith)
        | inr (accuracy, rated) ↦ elim (Bool-cases (leb_ℤ (pos 900) accuracy)) [
          | inl good ↦
              rw (factor_of, with_outcome, forecast, rated, good) (omega arith, omega arith)
          | inr poor ↦
              let same : predicted_of (with_outcome actual now memory) ≡ none = forecast in
              rw (factor_of, with_outcome, forecast, rated, poor)
                (rw (same, factor_by-none (positive actual)) (omega arith, omega arith))
        ]
      ]
  kept-IsDamped memory actual now (some p) forecast fine =
      elim (Bool-cases (leb_ℤ (pos 900) (accuracy_of actual p))) [
        | inl good ↦ rw (factor_of, with_outcome, forecast, good) (omega arith, omega arith)
        | inr poor ↦
            let same : predicted_of (with_outcome actual now memory) ≡ some p = forecast in
            rw (factor_of, with_outcome, forecast, poor)
              (rw same
                (factor_by-IsDamped actual p (predicted_of-lt memory forecast) (fine p refl)))
      ]

module _ (R : Redis) (tenant_id sector product_id : String) (settings : MemorySettings)
    (floor : settings.accuracy_floor ≡ 400) (actual_demand : ℤ) (now : ℕ) where
  abbrev pub is_saved : Saving → Bool
  is_saved (saved _) = true
  is_saved _ = false

  stored-IsDamped :
      (memory : DecisionMemory) (s : R.Db)
      → IsDamped (factor_of memory)
      → IsDamped (
          get_adjustment_factor R tenant_id sector product_id
            (setex R (Key.last_decision tenant_id sector product_id) memory_ttl memory s))
  unfolding get_adjustment_factor
  stored-IsDamped memory s damped =
      let key = Key.last_decision tenant_id sector product_id in
      rw (get_adjustment_factor, R.peek-store_self key memory (some memory_ttl) s 0) damped

  compared-IsDamped :
      (memory : DecisionMemory) (predicted : Option ℕ) (s : R.Db)
      → predicted_of memory ≡ predicted
      → let (r, t) =
          save_compared R tenant_id sector product_id settings actual_demand now memory predicted
            s in
        is_saved r ≡ true → IsDamped (get_adjustment_factor R tenant_id sector product_id t)
  unfolding save_compared
  compared-IsDamped memory none s forecast = λ h.
      rw (outcome_compared-with_outcome actual_demand now memory none forecast) (
        stored-IsDamped (with_outcome actual_demand now memory) s
          (kept-IsDamped settings floor memory actual_demand now none forecast (λ p e. cc)))
  compared-IsDamped memory (some p) s forecast =
      elim (Bool-cases (is_anomaly settings actual_demand p)) [
        | inl odd ↦ rw (save_compared, odd) (λ h. cc)
        | inr even ↦ elim (Bool-cases (is_below_floor settings actual_demand p)) [
          | inl low ↦ rw (save_compared, even, low) (λ h. cc)
          | inr fine ↦
              rw (save_compared, even, fine)
                (λ h.
                  rw (outcome_compared-with_outcome actual_demand now memory (some p) forecast) (
                    stored-IsDamped (with_outcome actual_demand now memory) s (
                      kept-IsDamped settings floor memory actual_demand now (some p) forecast
                        (λ q e. rw (← (some_injective e)) fine))))
        ]
      ]
    where
      some_injective : {p q : ℕ} → some p ≡ some q → p ≡ q
      some_injective e = cc

  -- what is answered and left
  abbrev pub safely : R.Db → Saving × R.Db
  safely s = save_actual_outcome_safe R tenant_id sector product_id settings actual_demand now s

  safely-IsDamped :
      (s : R.Db)
      → is_saved (safely s).0 ≡ true
      → IsDamped (get_adjustment_factor R tenant_id sector product_id (safely s).1)
  unfolding save_actual_outcome_safe
  safely-IsDamped s = elim (Option-cases (get_last_decision R tenant_id sector product_id s)) [
    | inl forgotten ↦ rw (save_actual_outcome_safe, forgotten) (λ h. cc)
    | inr (memory, found) ↦
        rw (save_actual_outcome_safe, found) (compared-IsDamped memory (predicted_of memory) s refl)
  ]

  -- With the default floor of 0.40: after an outcome that is saved, `get_adjustment_factor` is
  -- between 0.7 and 1.3, whatever was stored and whatever was sold; its own bounds of 0.5 and 1.5
  -- are never reached.
  pub saved-IsDamped :
      (s : R.Db)
      → is_saved (safely s).0 ≡ true
      → IsDamped (get_adjustment_factor R tenant_id sector product_id (safely s).1)
  saved-IsDamped s h = safely-IsDamped s h
