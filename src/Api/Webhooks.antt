-- ===== src/Api/Webhooks.antt =====
-- The webhook address in the body of POST /analyze. What urllib's `urlparse` finds in an address is
-- an argument: the scheme and the host in lower case, `none` where it raises.
use multiagent_platform_v.Prelude.{
  All, Bool, Bool-cases, List, Option, Option-cases, String, [], ap, arith, false, get_or,
  if◌then◌else◌, inl, inr, none, refl, some, starts_with, subst, sym, true, ℕ, ◌==◌, ◌||◌, ◌∙◌, ◌∷◌,
  ◌≡◌, ◌≢◌, ◌⊎◌,
}
use multiagent_platform_v.State.{InputData}
use multiagent_platform_v.Worker.{Message, analyse}
use multiagent_platform_v.Api.{AnalysisRequest, Limits, accept, accepted_input, analyze}
use multiagent_platform_v.Redis.{Redis}
use multiagent_platform_v.Rbac.{Tenant}
use multiagent_platform_v.Api.Replays.{analyze-Ends}

abbrev pub Parser : Type 0
Parser = String → Option (String × Option String)

-- _BLOCKED_PREFIXES
abbrev pub blocked_prefixes : List String
blocked_prefixes = "10." ∷ "172." ∷ "192.168." ∷ "127." ∷ "169.254." ∷ "::1" ∷ "fc" ∷ "fd" ∷ []

-- `any(host.startswith(p) for p in prefixes)`
abbrev pub is_blocked : List String → (host : String) → Bool
is_blocked [] host = false
is_blocked (prefix ∷ prefixes) host = starts_with prefix host || is_blocked prefixes host

abbrev pub is_web : (scheme : String) → Bool
is_web scheme = scheme == "http" || scheme == "https"

-- `none` is a ValueError
unfoldable pub validate_webhook_url : Parser → (url : String) → Option String
validate_webhook_url parse url = elim (parse url) [
  | none ↦ none
  | some (scheme, hostname) ↦
      if is_web scheme
      then (if is_blocked blocked_prefixes (get_or hostname "") then none else some url)
      else none
]

-- `if v: _validate_webhook_url(v)`; `none` is HTTP 422
unfoldable pub request_of :
    Parser → InputData → (webhook_url : Option String) → Option AnalysisRequest
unfolding validate_webhook_url
request_of parse input_data webhook_url =
    let request : AnalysisRequest = record { input_data = input_data; webhook_url = webhook_url } in
    elim webhook_url [
      | none ↦ some request
      | some url ↦
          if url == ""
          then some request
          else (elim (validate_webhook_url parse url) [ none ↦ none | some _ ↦ some request ])
    ]

-- a web address whose host is none of the blocked ones
abbrev pub IsPublic : Parser → (url : String) → Type 0
IsPublic parse url =
    (scheme : String) × (hostname : Option String) × (parse url ≡ some (scheme, hostname))
    × (is_web scheme ≡ true)
    × All (λ prefix. starts_with prefix (get_or hostname "") ≡ false) blocked_prefixes

is_blocked-All :
    (prefixes : List String) (host : String)
    → is_blocked prefixes host ≡ false
    → All (λ prefix. starts_with prefix host ≡ false) prefixes
is_blocked-All [] host h = tt
is_blocked-All (prefix ∷ prefixes) host h = elim (Bool-cases (starts_with prefix host)) [
  | inl starts ↦ absurd (ground (arith, starts, h))
  | inr passes ↦ (
    passes,
    is_blocked-All prefixes host (sym (ap (λ b. b || is_blocked prefixes host) passes) ∙ h),
  )
]

validate-IsPublic :
    (parse : Parser) (url : String) → validate_webhook_url parse url ≢ none → IsPublic parse url
unfolding validate_webhook_url
validate-IsPublic parse url valid = elim (Option-cases (parse url)) [
  | inl bad ↦ absurd (valid (rw (validate_webhook_url, bad) refl))
  | inr ((scheme, hostname), parsed) ↦ elim (Bool-cases (is_web scheme)) [
    | inl web ↦ elim (Bool-cases (is_blocked blocked_prefixes (get_or hostname ""))) [
      | inl inside ↦ absurd (valid (rw (validate_webhook_url, parsed, web, inside) refl))
      | inr outside ↦ (
        scheme,
        hostname,
        parsed,
        web,
        is_blocked-All blocked_prefixes (get_or hostname "") outside,
      )
    ]
    | inr other ↦ absurd (valid (rw (validate_webhook_url, parsed, other) refl))
  ]
]

-- a task whose webhook is public, or is the one of `input_data`
abbrev pub CallsBack : Parser → InputData → Message → Type 0
CallsBack parse input_data (analyse task queue) =
    ((url : String) × (task.input_data.webhook_url ≡ some url) × IsPublic parse url)
    ⊎ (task.input_data.webhook_url ≡ input_data.webhook_url)
CallsBack parse input_data _ = ⊥

accepted-CallsBack :
    (parse : Parser) (input_data : InputData) (webhook_url : Option String)
    (request : AnalysisRequest)
    → request_of parse input_data webhook_url ≡ some request
    → ((url : String) × ((accepted_input request).webhook_url ≡ some url) × IsPublic parse url)
      ⊎ ((accepted_input request).webhook_url ≡ input_data.webhook_url)
unfolding request_of
accepted-CallsBack parse input_data none request h =
    let plain : AnalysisRequest = record { input_data = input_data; webhook_url = none } in
    inr (ap (λ o. (accepted_input (get_or o plain)).webhook_url) (sym h))
accepted-CallsBack parse input_data (some url) request h =
    let given : AnalysisRequest = record { input_data = input_data; webhook_url = some url } in
    let used = λ (e : request_of parse input_data (some url) ≡ some given).
      ap (λ o. (accepted_input (get_or o given)).webhook_url) (sym h ∙ e) in
    elim (Bool-cases (url == "")) [
      | inl blank ↦ inr (used (rw (request_of, blank) refl) ∙ rw blank refl)
      | inr filled ↦ elim (Option-cases (validate_webhook_url parse url)) [
        | inl refused ↦
            let nothing : request_of parse input_data (some url) ≡ none =
              rw (request_of, filled, refused) refl in
            absurd (ground (arith, nothing, h))
        | inr (same, passed) ↦ inl (
          url,
          used (rw (request_of, filled, passed) refl) ∙ rw filled refl,
          validate-IsPublic parse url (λ e. cc),
        )
      ]
    ]

module _ (R : Redis) (limits : Limits) (tenant : Tenant) (key job_id : String) (now : ℕ) where
  -- What POST /analyze sends to the workers for a body that passed the validation: the webhook of a
  -- task is a web address whose host has none of the blocked prefixes, or it is the one that stands
  -- in `input_data`, which nothing validates.
  pub analyze-CallsBack :
      (parse : Parser) (input_data : InputData) (webhook_url : Option String)
      (request : AnalysisRequest) (s : R.Db)
      → request_of parse input_data webhook_url ≡ some request
      → All (CallsBack parse input_data) (analyze R limits tenant request key job_id now s).1
  unfolding accept
  analyze-CallsBack parse input_data webhook_url request s valid =
      elim (analyze-Ends R limits tenant request key job_id now s) [
        | inl (cached, stored, e) ↦ subst (λ r. All (CallsBack parse input_data) r.1) (sym e) tt
        | inr (inl (code, e)) ↦ subst (λ r. All (CallsBack parse input_data) r.1) (sym e) tt
        | inr (inr e) ↦
            subst (λ r. All (CallsBack parse input_data) r.1) (sym e)
              (accepted-CallsBack parse input_data webhook_url request valid, tt)
      ]
