-- ===== src/Secrets/Isolation.antt =====
-- Who can read a secret.
use multiagent_platform_v.Prelude.{
  Bool-cases, String, [], arith, eq_iff, false, format, inl, inr, none, refl, some, subst, ℕ, ◌+◌,
  ◌==◌, ◌∙◌, ◌∷◌, ◌≡◌, ◌≢◌, ◌⊎◌,
}
use multiagent_platform_v.Redis.{Key, Redis}
use multiagent_platform_v.Secrets.{Cipher, did, get_secret, secret_key, store_secret}

module _ (R : Redis) (c : Cipher) where
  -- what Fernet documents: a token is a text that its own key opens and another key refuses
  pub record IsAuthentic : Type 0 where
    pub filled :
        (tenant_id : String) (random : ℕ) (value : String) → c.encrypt tenant_id random value ≢ ""
    pub opens :
        (tenant_id : String) (random : ℕ) (value : String)
        → c.decrypt tenant_id (c.encrypt tenant_id random value) ≡ some value
    pub refuses :
        (tenant_id other : String) (random : ℕ) (value : String)
        → tenant_id ≢ other
        → c.decrypt other (c.encrypt tenant_id random value) ≡ none

  module _ (tenant_id secret_name value : String) (random : ℕ) (s : R.Db) where
    abbrev pub stored : R.Db
    stored = R.store (secret_key tenant_id secret_name) (c.encrypt tenant_id random value) none s

    own_secret :
        IsAuthentic
        → (elapsed : ℕ)
        → get_secret R (some c) tenant_id secret_name (R.elapse elapsed stored) ≡ did (some value)
    unfolding get_secret
    own_secret h elapsed =
        let token = c.encrypt tenant_id random value in
        let key = secret_key tenant_id secret_name in
        let found : R.peek (R.elapse elapsed stored) key 0 ≡ some token =
          R.peek-elapse elapsed stored key 0 ∙ R.peek-store_self key token none s (elapsed + 0) in
        let text : (token == "") ≡ false =
          ground (arith, eq_iff token "", h.filled tenant_id random value) in
        rw (get_secret, found, text, h.opens) refl

    foreign_secret :
        IsAuthentic
        → (other name : String) → tenant_id ≢ other
        → (get_secret R (some c) other name stored ≡ get_secret R (some c) other name s)
          ⊎ (get_secret R (some c) other name stored ≡ did none)
    unfolding get_secret
    foreign_secret h other name ne =
        let token = c.encrypt tenant_id random value in
        let key = secret_key tenant_id secret_name in
        let k = format (other ∷ ":" ∷ name ∷ []) in
        let j = format (tenant_id ∷ ":" ∷ secret_name ∷ []) in
        elim (Bool-cases (j == k)) [
          | inl same ↦
              let found : R.peek stored (Key.secret k) 0 ≡ some token =
                subst (λ i. R.peek stored (Key.secret i) 0 ≡ some token)
                  (ground (arith, eq_iff j k)) (R.peek-store_self key token none s 0) in
              let text : (token == "") ≡ false =
                ground (arith, eq_iff token "", h.filled tenant_id random value) in
              inr (rw (get_secret, found, text, h.refuses tenant_id other random value ne) refl)
          | inr apart ↦
              let missed : R.peek stored (Key.secret k) 0 ≡ R.peek s (Key.secret k) 0 =
                R.peek-store_ne key (Key.secret k) token none s 0 (ground (arith, eq_iff j k)) in
              inl (rw (get_secret, missed) refl)
        ]

    -- Under a cipher that does what Fernet documents: a secret is stored where there is a master
    -- key, and its tenant gets it back at any later time; another tenant gets under any name what
    -- it got before or nothing, and so never this secret, not even where the two tenants' names
    -- make the same key.
    pub store_secret-IsPrivate :
        IsAuthentic
        → (elapsed : ℕ) (other name : String) → tenant_id ≢ other
        → (t : R.Db) × (store_secret R (some c) tenant_id secret_name value random s ≡ did t)
          × (get_secret R (some c) tenant_id secret_name (R.elapse elapsed t) ≡ did (some value))
          × ((get_secret R (some c) other name t ≡ get_secret R (some c) other name s)
              ⊎ (get_secret R (some c) other name t ≡ did none))
    unfolding store_secret
    store_secret-IsPrivate h elapsed other name ne =
        (stored, refl, own_secret h elapsed, foreign_secret h other name ne)
