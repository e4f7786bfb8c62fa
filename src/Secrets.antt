-- ===== src/Secrets.antt =====
-- core/secrets.py, and the two endpoints of api/main.py. Fernet and HKDF are a library's: the cipher
-- under the key that is derived of the master key and the tenant is an interface, with the random
-- numbers of a token as an argument; there is no cipher where SECRETS_MASTER_KEY is not set.
use multiagent_platform_v.Prelude.{
  Bool, List, Option, String, [], codes, eqb, false, format, if◌then◌else◌, map, none, some, true,
  ℕ, ◌==◌, ◌||◌, ◌∷◌,
}
use multiagent_platform_v.Redis.{Key, Redis}
use multiagent_platform_v.Redis.Commands.{get}
use multiagent_platform_v.Http.{Http, http_error, respond}
use multiagent_platform_v.Rbac.{Tenant, audit_log, has_permission}
use multiagent_platform_v.Api.{user_of}
pub mod Isolation
mod Tests

pub record Cipher : Type 0 where
  pub encrypt : (tenant_id : String) → (random : ℕ) → String → String
  pub decrypt : (tenant_id : String) → String → Option String

-- a RuntimeError for the missing master key, or what is returned
pub data Attempt {ℓ} (A : Type ℓ) : Type ℓ where
  runtime_error : Attempt A
  did : A → Attempt A

-- f"secret:{tenant_id}:{secret_name}"
abbrev pub secret_key : (tenant_id secret_name : String) → Key
secret_key tenant_id secret_name = Key.secret (format (tenant_id ∷ ":" ∷ secret_name ∷ []))

-- `secret_map.get(connector_type, [])`
unfoldable pub secret_map : (connector_type : String) → List String
secret_map connector_type =
    if connector_type == "google_sheets"
    then "google_api_key" ∷ []
    else if connector_type == "rest_api"
    then "api_key" ∷ "auth_token" ∷ []
    else []

module _ (R : Redis) (cipher : Option Cipher) where
  -- no expiry
  unfoldable pub store_secret :
      (tenant_id secret_name secret_value : String) → (random : ℕ) → R.Db → Attempt R.Db
  store_secret tenant_id secret_name secret_value random s = elim cipher [
    | none ↦ runtime_error
    | some c ↦ did (
        R.store (secret_key tenant_id secret_name) (c.encrypt tenant_id random secret_value) none s)
  ]

  -- a token that cannot be decrypted is an error that is caught
  abbrev pub opened_by : (tenant_id : String) → (encrypted : String) → Attempt (Option String)
  opened_by tenant_id encrypted = elim cipher [
    | none ↦ runtime_error
    | some c ↦ did (c.decrypt tenant_id encrypted)
  ]

  -- `if not encrypted`: nothing, or an empty text
  unfoldable pub get_secret : (tenant_id secret_name : String) → R.Db → Attempt (Option String)
  get_secret tenant_id secret_name s = elim (get R (secret_key tenant_id secret_name) s) [
    | none ↦ did none
    | some encrypted ↦ if encrypted == "" then did none else opened_by tenant_id encrypted
  ]

  -- `if value: config[secret_name] = value` for the names of a list
  abbrev pub put_secret :
      (secret_name : String)
      → Attempt (Option String)
      → Attempt (List (String × String))
      → Attempt (List (String × String))
  put_secret secret_name runtime_error rest = runtime_error
  put_secret secret_name (did none) rest = rest
  put_secret secret_name (did (some value)) runtime_error = runtime_error
  put_secret secret_name (did (some value)) (did config) =
      did (if value == "" then config else (secret_name, value) ∷ config)

  unfoldable pub secrets_of :
      (tenant_id : String) → List String → R.Db → Attempt (List (String × String))
  unfolding get_secret
  secrets_of tenant_id [] s = did []
  secrets_of tenant_id (secret_name ∷ names) s =
      put_secret secret_name (get_secret tenant_id secret_name s) (secrets_of tenant_id names s)

  -- what is added to the tenant's configuration, which comes from PostgreSQL
  unfoldable pub get_connector_config :
      (tenant_id connector_type : String) → R.Db → Attempt (List (String × String))
  unfolding secrets_of
  get_connector_config tenant_id connector_type s =
      secrets_of tenant_id (secret_map connector_type) s

  -- POST /secrets/{secret_name}; an exception is HTTP 500
  unfoldable pub post_secret :
      Tenant → (secret_name value : String) → (random now : ℕ) → R.Db → Http String × R.Db
  unfolding store_secret
  post_secret tenant secret_name value random now s =
      elim (has_permission tenant "manage_secrets") [
        | none ↦ (http_error 500, s)
        | some may ↦
            if may
            then (elim (store_secret tenant.tenant_id secret_name value random s) [
              | runtime_error ↦ (http_error 500, s)
              | did s1 ↦ (
                respond secret_name,
                audit_log R tenant.tenant_id (user_of tenant) "store_secret" secret_name true now
                    s1,
              )
            ])
            else (http_error 403, s)
      ]

module _ (R : Redis) where
  unfoldable pub delete_secret : (tenant_id secret_name : String) → R.Db → R.Db
  delete_secret tenant_id secret_name s = R.delete (secret_key tenant_id secret_name) s

-- `key.split(":")[-1]`, on code points
abbrev pub has_colon : List ℕ → Bool
has_colon [] = false
has_colon (c ∷ cs) = eqb c 58 || has_colon cs

abbrev pub last_part : List ℕ → List ℕ
last_part [] = []
last_part (c ∷ cs) = let rest = last_part cs in if has_colon (c ∷ cs) then rest else c ∷ cs

-- the keys that KEYS answers for the tenant's pattern
unfoldable pub list_secrets : (keys : List String) → List (List ℕ)
list_secrets keys = map (λ key. last_part (codes key)) keys
