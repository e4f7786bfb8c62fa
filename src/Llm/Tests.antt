-- ===== src/Llm/Tests.antt =====
-- The chain at concrete answers.
use multiagent_platform_v.Prelude.{
  Option, String, false, if◌then◌else◌, inl, inr, none, refl, some, true, ◌==◌, ◌≡◌, ◌⊎◌,
}
use multiagent_platform_v.Llm.{call_llm, full, try_models}

-- the large models are over their quota
abbrev answer : String → String ⊎ String
answer model = if model == "gemma2-9b-it" then inr "Order 500." else inl "rate limit"

last_resort :
    call_llm (λ text. text) answer full none
    ≡ inr ("Order 500.", record { model = "gemma2-9b-it"; fallback_used = true })
unfolding call_llm try_models
last_resort = refl

-- a message without a content is an answer too
abbrev silent : String → String ⊎ Option String
silent model = inr none

no_content :
    call_llm some silent full none
    ≡ inr (none, record { model = "llama-3.3-70b-versatile"; fallback_used = false })
unfolding call_llm try_models
no_content = refl
