-- ===== src/Llm/Chain.antt =====
-- Which model's answer is returned.
use multiagent_platform_v.Prelude.{
  List, Option, String, Sum-cases, [], ap, inl, inr, none, not, refl, some, ◌==◌, ◌∷◌, ◌≡◌, ◌⊎◌,
}
use multiagent_platform_v.State.{CostInfo}
use multiagent_platform_v.Llm.{LlmTier, call_llm, models_of, static_fallback, try_models, value_of}

-- the first model of a list that answers, with its text

abbrev pub first_answer : {A : Type 0} → (String → String ⊎ A) → List String → Option (String × A)
first_answer answer [] = none
first_answer answer (model ∷ models) = elim (answer model) [
  | inl _ ↦ first_answer answer models
  | inr text ↦ some (model, text)
]

-- the exception of the last model of a list, where none answers
abbrev pub last_failure : {A : Type 0} → (String → String ⊎ A) → List String → String → String
last_failure answer [] error = error
last_failure answer (model ∷ models) error = elim (answer model) [
  | inl failure ↦ last_failure answer models failure
  | inr _ ↦ last_failure answer models error
]

-- the answer of a model, or the fixed text
abbrev pub chosen :
    {A : Type 0} → (String → A) → LlmTier → (failure : String) → Option (String × A) → A × CostInfo
chosen content tier failure none =
    let (text, cost) = static_fallback failure in (content text, cost)
chosen content tier failure (some (model, text)) =
    (text, record { model = model; fallback_used = not (model == value_of tier) })

module _ {A : Type 0} (content : String → A) (answer : (model : String) → String ⊎ A)
    (tier : LlmTier) where
  try_models-chosen :
      (models : List String) (error : String)
      → try_models content answer tier models error
        ≡ chosen content tier (last_failure answer models error) (first_answer answer models)
  unfolding try_models
  try_models-chosen [] error = refl
  try_models-chosen (model ∷ models) error = elim (Sum-cases (answer model)) [
    | inl (failure, e) ↦
        rw (try_models, last_failure, first_answer, e) (try_models-chosen models failure)
    | inr (text, e) ↦ rw (try_models, last_failure, first_answer, e) refl
  ]

  -- Once there is a client, a call raises nothing. It returns the answer of the first model of the
  -- tier's chain that gives one, marked as a fallback exactly if that is not the tier's own model;
  -- and if none does, a fixed text with the last model's exception, marked as a fallback.
  pub call_llm-chosen :
      call_llm content answer tier none
      ≡ inr (
          chosen content tier
            (last_failure answer (models_of tier) "None")
            (first_answer answer (models_of tier)))
  unfolding call_llm
  call_llm-chosen = ap inr (try_models-chosen (models_of tier) "None")
