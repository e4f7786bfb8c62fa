-- ===== src/Hitl.antt =====
-- core/hitl.py. Confidences are in thousandths: every value that `evaluate_confidence` meets is a
-- multiple of 0.05 and is rounded to three digits. The new request id (`uuid.uuid4()`) is an
-- argument; the webhook's payload is returned, and whether its delivery fails changes nothing.
use multiagent_platform_v.Prelude.{
  Bool, List, Option, String, [], false, format, if◌then◌else◌, leb, length, ltb, none, some, true,
  ℕ, ◌&&◌, ◌+◌, ◌-◌, ◌||◌, ◌∷◌,
}
use multiagent_platform_v.State.{
  AggregatedInsights, Alert, HitlResult, UrgencyLevel, capacity_insufficient, high, low,
  stock_critical,
}
use multiagent_platform_v.Documents.{Approval, pending, verdict}
use multiagent_platform_v.Redis.{Key, Redis}
use multiagent_platform_v.Redis.Commands.{get, setex}

abbrev pub is_stock_critical : Alert → Bool
is_stock_critical stock_critical = true
is_stock_critical _ = false

abbrev pub is_capacity_insufficient : Alert → Bool
is_capacity_insufficient capacity_insufficient = true
is_capacity_insufficient _ = false

-- `"..." in alerts`
abbrev pub any {ℓ} : {A : Type ℓ} → (A → Bool) → List A → Bool
any p [] = false
any p (x ∷ xs) = p x || any p xs

abbrev pub is_high : UrgencyLevel → Bool
is_high high = true
is_high _ = false

-- `insights` may be `{}`
abbrev pub alerts_of : Option AggregatedInsights → List Alert
alerts_of none = []
alerts_of (some insights) = insights.alerts

abbrev pub urgency_of : Option AggregatedInsights → UrgencyLevel
urgency_of none = low
urgency_of (some insights) = insights.urgency

abbrev pub fallback_of : Option AggregatedInsights → Bool
fallback_of none = false
fallback_of (some insights) = insights.has_fallback_data

-- `if test: score -= n`
abbrev pub deduct : Bool → ℕ → ℕ → ℕ
deduct test n score = if test then score - n else score

unfoldable pub evaluate_confidence : Option AggregatedInsights → ℕ
evaluate_confidence insights =
    let alerts = alerts_of insights in
    let score = deduct (any is_stock_critical alerts) 300 1000 in
    let score = deduct (any is_capacity_insufficient alerts) 250 score in
    let score = deduct (is_high (urgency_of insights) && leb 3 (length alerts)) 200 score in
    deduct (fallback_of insights) 250 score

-- the webhook's payload, without the preview of the decision and the two links
pub record ReviewRequest : Type 0 where
  pub request_id : String
  pub tenant_id : String
  pub sector : String
  pub confidence : ℕ
  pub urgency : UrgencyLevel
  pub alerts : List Alert
  pub expires_at : ℕ

-- what `resolve_hitl` returns
pub record Resolved : Type 0 where
  pub approved : Bool
  pub reviewer : String
  pub comment : String
  pub final_decision : Option String

unfoldable pub fallback_comment : Bool → String
fallback_comment fallback_approve =
    if fallback_approve
    then "Auto-approved after timeout"
    else "Rejected: no response within timeout"

unfoldable pub rejection : (reviewer comment : String) → String
rejection reviewer comment = format ("[REJECTED by " ∷ reviewer ∷ "] " ∷ comment ∷ [])

unfoldable pub finalise : Option String → (approved : Bool) → (reviewer comment : String) → Resolved
unfolding rejection
finalise decision_text approved reviewer comment = record {
  approved = approved;
  reviewer = reviewer;
  comment = comment;
  final_decision = if approved then decision_text else some (rejection reviewer comment);
}

-- HITL_TIMEOUT_SECONDS, HITL_CONFIDENCE_THRESHOLD, HITL_FALLBACK_APPROVE
pub record HitlSettings : Type 0 where
  pub timeout_seconds : ℕ
  pub confidence_threshold : ℕ
  pub fallback_approve : Bool
  pub has_webhook : Bool

module _ (R : Redis) (settings : HitlSettings) where
  unfoldable pub request_human_validation :
      (request_id tenant_id sector : String)
      → Option AggregatedInsights
      → (confidence now : ℕ) → R.Db
      → Option ReviewRequest × R.Db
  request_human_validation request_id tenant_id sector insights confidence now s =
      let payload : ReviewRequest = record {
        request_id = request_id;
        tenant_id = tenant_id;
        sector = sector;
        confidence = confidence;
        urgency = urgency_of insights;
        alerts = alerts_of insights;
        expires_at = now + settings.timeout_seconds;
      } in
      (
        if settings.has_webhook then some payload else none,
        setex R (Key.hitl_approval request_id) settings.timeout_seconds pending s,
      )

  -- the answer, or the fallback where it is missing or still "pending"
  unfoldable pub decide : Option Approval → Option String → Resolved
  unfolding finalise fallback_comment
  decide (some (verdict approved reviewer comment)) decision_text =
      finalise decision_text approved reviewer comment
  decide _ decision_text =
      finalise decision_text settings.fallback_approve "auto-timeout"
        (fallback_comment settings.fallback_approve)

  unfoldable pub resolve_hitl : (request_id : String) → Option String → R.Db → Resolved
  resolve_hitl request_id decision_text s =
      decide (get R (Key.hitl_approval request_id) s) decision_text

  unfoldable pub hitl_checkpoint :
      (request_id tenant_id sector decision : String)
      → Option AggregatedInsights
      → (now : ℕ) → R.Db
      → HitlResult × Option ReviewRequest × R.Db
  unfolding evaluate_confidence request_human_validation
  hitl_checkpoint request_id tenant_id sector decision insights now s =
      let confidence = evaluate_confidence insights in
      let (payload, s') =
        request_human_validation request_id tenant_id sector insights confidence now s in
      if ltb confidence settings.confidence_threshold
      then (
        record {
          approved = false;
          confidence = confidence;
          requires_human = true;
          pending = true;
          request_id = some request_id;
          final_decision = none;
        },
        payload,
        s',
      )
      else (
        record {
          approved = true;
          confidence = confidence;
          requires_human = false;
          pending = false;
          request_id = none;
          final_decision = some decision;
        },
        none,
        s,
      )
