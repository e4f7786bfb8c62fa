-- ===== src/SupplyChain/World.antt =====
-- What the agents call outside the repository, and the connector that they reach the ERP through.
use multiagent_platform_v.Prelude.{List, Option, String, some, ℕ, ℤ, ◌⊎◌}
use multiagent_platform_v.State.{CostInfo, UniversalState}
use multiagent_platform_v.Erp.{Bin, get_sales_last_30_days, get_stock}
use multiagent_platform_v.Llm.{call_llm, full}
use multiagent_platform_v.Redis.{Redis}
use multiagent_platform_v.SupplyChain.Weather.{Daily}

pub record World (R : Redis) : Type 0 where
  -- Open-Meteo, and the text of its exceptions
  pub fetch : (location : String) → R.Db → Option Daily × R.Db
  pub fetch_error : String
  -- the ERP's answers for a product; `none` where the request raises
  pub total_qty : String → Option ℤ
  pub bins : String → Option (List Bin)
  pub safety_stock : String → Option ℤ
  -- `build_rag_context`: the context, or the text of its exception
  pub build_rag_context : UniversalState → String ⊎ String
  -- the first LLM call, read as JSON: `none` where anything raises, and in it `none` where the
  -- object has no "tools_to_call"
  pub select : UniversalState → Option (Option (List String))
  -- the exception of a Groq client that cannot be built, and what Groq answers for a model to the
  -- second LLM call, with the prompt that the state gives. Groq leaves the content of a message out
  -- for the call of a tool; no tool is offered to it, and the contents are taken to be texts.
  pub client_error : Option String
  pub complete : UniversalState → (model : String) → String ⊎ String
  -- FAILURE_THRESHOLD and RECOVERY_TIMEOUT of the circuit breaker
  pub failure_threshold : ℕ
  pub recovery_timeout : ℕ

-- what the agents get of the connector, which raises nothing

module _ {R : Redis} (world : World R) where
  abbrev pub sold : String → Option ℤ
  sold product = some (get_sales_last_30_days (world.total_qty product)).qty_sold_30d

  abbrev pub in_stock : String → Option ℤ
  in_stock product = some (get_stock (world.bins product) (world.safety_stock product)).actual_qty

  -- the second LLM call
  abbrev pub decision_of : UniversalState → String ⊎ (String × CostInfo)
  decision_of state = call_llm (λ text. text) (world.complete state) full world.client_error
