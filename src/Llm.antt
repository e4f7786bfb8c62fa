-- ===== src/Llm.antt =====
-- core/llm.py: a chain of models, tried one after another. What Groq answers for a model is an
-- argument, the content of its message or the text of an exception, cut to 200 characters; so is the
-- exception of a client that cannot be built. The content is passed on as it is: it may be of any
-- type that has the texts, Option String for one, since Groq may leave it out. Every price is 0.
pub mod Chain
mod Tests
use multiagent_platform_v.Prelude.{
  List, Option, String, [], format, inl, inr, none, not, some, true, ◌==◌, ◌∷◌, ◌⊎◌,
}
use multiagent_platform_v.State.{CostInfo}

-- LLMTier

pub data LlmTier : Type 0 where
  mini full : LlmTier

-- `tier.value`
abbrev pub value_of : LlmTier → String
value_of mini = "llama-3.1-8b-instant"
value_of full = "llama-3.3-70b-versatile"

abbrev pub models_of : LlmTier → List String
models_of full = "llama-3.3-70b-versatile" ∷ "llama-3.1-70b-versatile" ∷ "gemma2-9b-it" ∷ []
models_of mini = "llama-3.1-8b-instant" ∷ "gemma2-9b-it" ∷ "llama3-8b-8192" ∷ []

-- without the warning sign in front of it
unfoldable pub unavailable : (last_error : String) → String
unavailable last_error =
    format ("AI recommendation unavailable. Review alerts manually. Error: " ∷ last_error ∷ [])

unfoldable pub static_fallback : (last_error : String) → String × CostInfo
unfolding unavailable
static_fallback last_error =
    (unavailable last_error, record { model = "static_fallback"; fallback_used = true })

-- the type of the contents, and a text as a content
module _ {A : Type 0} (content : String → A) (answer : (model : String) → String ⊎ A)
    (tier : LlmTier) where
  -- the loop; `last_error` is that of the models tried before
  unfoldable pub try_models : List String → (last_error : String) → A × CostInfo
  unfolding static_fallback
  try_models [] last_error = let (text, cost) = static_fallback last_error in (content text, cost)
  try_models (model ∷ models) last_error = elim (answer model) [
    | inl error ↦ try_models models error
    | inr text ↦ (text, record { model = model; fallback_used = not (model == value_of tier) })
  ]

  -- `inl` is an exception: building the client is outside the `try`
  unfoldable pub call_llm : (client_error : Option String) → String ⊎ (A × CostInfo)
  unfolding try_models
  call_llm (some error) = inl error
  call_llm none = inr (try_models (models_of tier) "None")
