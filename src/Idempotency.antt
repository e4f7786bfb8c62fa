-- ===== src/Idempotency.antt =====
-- core/idempotency.py. The key is `idempotency:{tenant_id}:{idempotency_key}`.
pub mod Replay
mod Tests
use multiagent_platform_v.Prelude.{
  Option, String, [], format, if◌then◌else◌, none, some, true, ℕ, ◌==◌, ◌∷◌,
}
use multiagent_platform_v.Documents.{Response}
use multiagent_platform_v.Redis.{Key, Redis}
use multiagent_platform_v.Redis.Commands.{get, setex}

-- IDEMPOTENCY_TTL

abbrev pub idempotency_ttl : ℕ
idempotency_ttl = 86400

abbrev pub cache_key : (idempotency_key tenant_id : String) → Key
cache_key idempotency_key tenant_id =
    Key.idempotency (format (tenant_id ∷ ":" ∷ idempotency_key ∷ []))

-- `data["idempotent_replay"] = True`
abbrev pub replayed : Response → Response
replayed response = record response { idempotent_replay = true }

module _ (R : Redis) where
  unfoldable pub check_idempotency : (idempotency_key tenant_id : String) → R.Db → Option Response
  check_idempotency idempotency_key tenant_id s =
      if idempotency_key == "" then none else elim (get R (cache_key idempotency_key tenant_id) s) [
        | none ↦ none
        | some response ↦ some (replayed response)
      ]

  pub store_idempotency : (idempotency_key tenant_id : String) → Response → R.Db → R.Db
  store_idempotency idempotency_key tenant_id response s =
      if idempotency_key == ""
      then s
      else setex R (cache_key idempotency_key tenant_id) idempotency_ttl response s
