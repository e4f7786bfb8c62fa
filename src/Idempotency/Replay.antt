-- ===== src/Idempotency/Replay.antt =====
-- What a retry with the same key gets, and where two keys meet.
use text.Mathlib.TextLemmas.{append_assoc, append-eq-nil_iff}
use multiagent_platform_v.Prelude.{
  String, [], ap, arith, eq_iff, format, if◌then◌else◌, ltb, none, some, ℕ, ◌+◌, ◌==◌, ◌∷◌, ◌≡◌,
  ◌≢◌,
}
use multiagent_platform_v.Documents.{Response}
use multiagent_platform_v.Redis.{Key, Redis}
use multiagent_platform_v.Idempotency.{
  cache_key, check_idempotency, idempotency_ttl, replayed, store_idempotency,
}

key_collision :
    (tenant region key : String)
    → cache_key (format (region ∷ ":" ∷ key ∷ [])) tenant
      ≡ cache_key key (format (tenant ∷ ":" ∷ region ∷ []))
key_collision tenant region key = ap Key.idempotency (simp append_assoc)

joined-ne-nil : (region key : String) → format (region ∷ ":" ∷ key ∷ []) ≢ ""
joined-ne-nil region key e =
    let right = (append-eq-nil_iff.0 e).1 in
    let colon : ◌≡◌ {A = String} ":" "" = (append-eq-nil_iff.0 right).0 in
    ground (arith, eq_iff ":" "")

module _ (R : Redis) where
  -- A retry with the same tenant and the same non-empty key gets the stored response, marked as a
  -- replay, as long as fewer than 24 hours have passed, and nothing from then on. With the empty
  -- key nothing is stored or found.
  pub check-store :
      (key tenant : String) (response : Response) (elapsed : ℕ) (s : R.Db)
      → check_idempotency R key tenant
          (R.elapse elapsed (store_idempotency R key tenant response s))
        ≡ (if key == ""
            then none
            else if ltb elapsed idempotency_ttl
            then some (replayed response)
            else none)
  unfolding check_idempotency store_idempotency
  check-store key tenant response elapsed s =
      let k = cache_key key tenant in
      ground (
        arith,
        R.peek-elapse elapsed (R.store k response (some idempotency_ttl) s) k 0,
        R.peek-store_self k response (some idempotency_ttl) s (elapsed + 0),
      )

  -- A response stored under one key does not change what another key finds.
  pub check-store_other :
      (key tenant key' tenant' : String) (response : Response) (s : R.Db)
      → format (tenant ∷ ":" ∷ key ∷ []) ≢ format (tenant' ∷ ":" ∷ key' ∷ [])
      → check_idempotency R key' tenant' (store_idempotency R key tenant response s)
        ≡ check_idempotency R key' tenant' s
  unfolding check_idempotency store_idempotency
  check-store_other key tenant key' tenant' response s ne = ground (
    arith,
    R.peek-store_ne (cache_key key tenant) (cache_key key' tenant') response (some idempotency_ttl)
        s 0,
  )

  -- For the tenants `t` and `t:r`, the key `r:k` of the first is the key `k` of the second: what the
  -- first has stored is returned to the second as a replay, for every non-empty `k`.
  pub cross_tenant_replay :
      (tenant region key : String) (response : Response) (s : R.Db)
      → key ≢ ""
      → check_idempotency R key
          (format (tenant ∷ ":" ∷ region ∷ []))
          (store_idempotency R (format (region ∷ ":" ∷ key ∷ [])) tenant response s)
        ≡ some (replayed response)
  unfolding check_idempotency store_idempotency
  cross_tenant_replay tenant region key response s ne =
      let k = cache_key key (format (tenant ∷ ":" ∷ region ∷ [])) in
      ground (
        arith,
        eq_iff key "",
        eq_iff (format (region ∷ ":" ∷ key ∷ [])) "",
        joined-ne-nil region key,
        key_collision tenant region key,
        R.peek-store_self k response (some idempotency_ttl) s 0,
      )
