-- ===== src/SupplyChain/Checkpoint.antt =====
-- What the checkpoint of core/hitl.py returns below the threshold and from it on.
use multiagent_platform_v.Prelude.{Option, String, false, ltb, none, refl, some, true, ℕ, ◌≡◌}
use multiagent_platform_v.State.{AggregatedInsights}
use multiagent_platform_v.Documents.{pending}
use multiagent_platform_v.Redis.{Key, Redis}
use multiagent_platform_v.Hitl.{
  HitlSettings, evaluate_confidence, hitl_checkpoint, request_human_validation,
}

module _ (R : Redis) (settings : HitlSettings) (request_id tenant_id sector decision : String)
    (insights : Option AggregatedInsights) (now : ℕ) (s : R.Db) where
  pub checkpoint_uncertain :
      ltb (evaluate_confidence insights) settings.confidence_threshold ≡ true
      → hitl_checkpoint R settings request_id tenant_id sector decision insights now s ≡ (
        record {
          approved = false;
          confidence = evaluate_confidence insights;
          requires_human = true;
          pending = true;
          request_id = some request_id;
          final_decision = none;
        },
        (request_human_validation R settings request_id tenant_id sector insights
            (evaluate_confidence insights)
            now
            s).0,
        R.store (Key.hitl_approval request_id) pending (some settings.timeout_seconds) s,
      )
  unfolding hitl_checkpoint request_human_validation
  checkpoint_uncertain h = rw (hitl_checkpoint, h) refl

  pub checkpoint_certain :
      ltb (evaluate_confidence insights) settings.confidence_threshold ≡ false
      → hitl_checkpoint R settings request_id tenant_id sector decision insights now s ≡ (
        record {
          approved = true;
          confidence = evaluate_confidence insights;
          requires_human = false;
          pending = false;
          request_id = none;
          final_decision = some decision;
        },
        none,
        s,
      )
  unfolding hitl_checkpoint
  checkpoint_certain h = rw (hitl_checkpoint, h) refl
