-- ===== src/SupplyChain/Samples.antt =====
-- The inputs of the tests: an order, the settings, and a world with a server in memory.
use multiagent_platform_v.Prelude.{String, [], false, inl, inr, none, pos, some, true, ◌∷◌}
use multiagent_platform_v.State.{CostInfo, InputData, UniversalState}
use multiagent_platform_v.Redis.Memory.{memory}
use multiagent_platform_v.Hitl.{HitlSettings}
use multiagent_platform_v.SupplyChain.World.{World}
use multiagent_platform_v.SupplyChain.Orchestrator.{initial_state}

abbrev pub order : InputData
order = record {
  location = some "Sfax, Tunisia";
  product_id = some "HARISSA-140G";
  webhook_url = none;
}

abbrev pub settings : HitlSettings
settings = record {
  timeout_seconds = 3600;
  confidence_threshold = 800;
  fallback_approve = true;
  has_webhook = false;
}

abbrev pub lenient : HitlSettings
lenient = record settings { confidence_threshold = 0 }

abbrev pub world : World memory
world = record {
  fetch = λ location s. (some (record { temps_max = pos 360 ∷ []; precip = [] }), s);
  fetch_error = "timed out";
  total_qty = λ product. some (pos 1350);
  bins = λ product. none;
  safety_stock = λ product. none;
  build_rag_context = λ state. inr "No historical context available.";
  select = λ state. some (some ("sales_tool" ∷ "rag_tool" ∷ []));
  client_error = none;
  complete = λ state model. inr "Order 500.";
  failure_threshold = 3;
  recovery_timeout = 120;
}

-- Groq answers for no model, and every confidence is enough
abbrev pub no_llm : World memory
no_llm = record world { complete = λ state model. inl "rate limit" }

abbrev pub answered : String × CostInfo
answered = ("Order 500.", record { model = "llama-3.3-70b-versatile"; fallback_used = false })

abbrev pub submitted : UniversalState
submitted = initial_state "acme" "supply_chain" order
