-- ===== src/Kpis.antt =====
-- The health score of core/kpis.py. Percentages are in tenths, as they are rounded to one decimal.
mod Tests
pub mod Report
pub mod Bounds
use multiagent_platform_v.Prelude.{
  Bool, List, Option, [], false, get_or, if◌then◌else◌, leb, ltb_ℤ, none, pos, refl, some, true, ℕ,
  ℤ, ◌&&◌, ◌++◌, ◌-◌, ◌||◌, ◌∷◌, ◌≡◌,
}

pub data Issue : Type 0 where
  low_accuracy : ℤ → Issue
  high_hitl_rate : ℤ → Issue
  low_reliability : ℤ → Issue

pub data HealthStatus : Type 0 where
  excellent : HealthStatus
  good : HealthStatus
  needs_attention : HealthStatus

pub record Health : Type 0 where
  pub score : ℕ
  pub status : HealthStatus
  pub issues : List Issue

-- an accuracy of 0 is false in Python, like a missing one
abbrev pub is_inaccurate : Option ℤ → Bool
is_inaccurate none = false
is_inaccurate (some a) = (ltb_ℤ a (pos 0) || ltb_ℤ (pos 0) a) && ltb_ℤ a (pos 700)

-- one `if` of the code, with its penalty and its message
abbrev pub penalise : Bool → ℕ → Issue → ℕ × List Issue → ℕ × List Issue
penalise test penalty issue (score, issues) =
    if test then (score - penalty, issues ++ (issue ∷ [])) else (score, issues)

-- the three `if`s, by what their tests say
abbrev pub penalties :
    (inaccurate intervened unreliable : Bool) → ℤ → (hitl_rate reliability : ℤ) → ℕ × List Issue
penalties inaccurate intervened unreliable accuracy hitl_rate reliability =
    penalise unreliable 15 (low_reliability reliability) (
      penalise intervened 15 (high_hitl_rate hitl_rate)
        (penalise inaccurate 20 (low_accuracy accuracy) (100, [])))

abbrev pub health_of : ℕ × List Issue → Health
health_of (score, issues) = record {
  score = score;
  status = if leb 90 score then excellent else if leb 75 score then good else needs_attention;
  issues = issues;
}

unfoldable pub compute_health : Option ℤ → (hitl_rate reliability : ℤ) → Health
compute_health accuracy hitl_rate reliability = health_of (
    penalties (is_inaccurate accuracy) (ltb_ℤ (pos 300) hitl_rate) (ltb_ℤ reliability (pos 950))
      (get_or accuracy (pos 0)) hitl_rate reliability)

abbrev pub status_by : List Issue → HealthStatus
status_by [] = excellent
status_by (_ ∷ []) = good
status_by (_ ∷ _ ∷ _) = needs_attention

abbrev pub issues_by :
    (inaccurate intervened unreliable : Bool) → ℤ → (hitl_rate reliability : ℤ) → List Issue
issues_by inaccurate intervened unreliable accuracy hitl_rate reliability =
    (if inaccurate then low_accuracy accuracy ∷ [] else [])
    ++ ((if intervened then high_hitl_rate hitl_rate ∷ [] else [])
        ++ (if unreliable then low_reliability reliability ∷ [] else []))

penalties-status :
    (inaccurate intervened unreliable : Bool) (accuracy hitl_rate reliability : ℤ)
    → let h =
        health_of (penalties inaccurate intervened unreliable accuracy hitl_rate reliability) in
      (h.status ≡ status_by h.issues)
      × (h.issues ≡ issues_by inaccurate intervened unreliable accuracy hitl_rate reliability)
      × (leb 50 h.score ≡ true)
penalties-status true true true a h r = (refl, refl, refl)
penalties-status true true false a h r = (refl, refl, refl)
penalties-status true false true a h r = (refl, refl, refl)
penalties-status true false false a h r = (refl, refl, refl)
penalties-status false true true a h r = (refl, refl, refl)
penalties-status false true false a h r = (refl, refl, refl)
penalties-status false false true a h r = (refl, refl, refl)
penalties-status false false false a h r = (refl, refl, refl)

-- The status of a tenant counts the tests that fail: excellent without an issue, good with one and
-- needs_attention with more. The issues are those of the failing tests, in the order of the code,
-- and the score does not fall below 50.
pub compute_health-status :
    (accuracy : Option ℤ) (hitl_rate reliability : ℤ)
    → let h = compute_health accuracy hitl_rate reliability in
      (h.status ≡ status_by h.issues)
      × (h.issues
          ≡ issues_by
              (is_inaccurate accuracy)
              (ltb_ℤ (pos 300) hitl_rate)
              (ltb_ℤ reliability (pos 950))
              (get_or accuracy (pos 0))
              hitl_rate
              reliability)
      × (leb 50 h.score ≡ true)
unfolding compute_health
compute_health-status accuracy hitl_rate reliability =
    penalties-status (is_inaccurate accuracy) (ltb_ℤ (pos 300) hitl_rate)
      (ltb_ℤ reliability (pos 950)) (get_or accuracy (pos 0)) hitl_rate reliability

-- An accuracy that is rounded to 0 % is not an issue, unlike every other one below 70 %.
pub zero_accuracy-unreported :
    (hitl_rate reliability : ℤ)
    → compute_health (some (pos 0)) hitl_rate reliability
      ≡ compute_health none hitl_rate reliability
unfolding compute_health
zero_accuracy-unreported hitl_rate reliability = refl
