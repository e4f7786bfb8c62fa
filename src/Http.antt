-- ===== src/Http.antt =====
-- What a FastAPI handler comes to: its response, or the HTTPException that it raises.
use multiagent_platform_v.Prelude.{ℕ}

pub data Http {ℓ} (A : Type ℓ) : Type ℓ where
  respond : A → Http A
  http_error : (status_code : ℕ) → Http A
