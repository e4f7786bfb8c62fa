-- ===== src/Secrets/Tests.antt =====
-- A secret at a concrete tenant, under a cipher that satisfies what Fernet documents.
-- each character of the tenant after a 1, then a 0 and the value
use Prim.Native.Char.{code}
use text.Mathlib.TextEquality.{Char-path}
use multiagent_platform_v.Prelude.{
  Bool-cases, Option, String, [], arith, codes, eq_iff, eqb, if◌then◌else◌, inl, inr, none, refl,
  some, true, ◌∷◌, ◌≡◌, ◌≢◌, ◌⊎◌,
}
use multiagent_platform_v.Redis.Memory.{empty, memory}
use multiagent_platform_v.Secrets.{Cipher, did, get_secret, list_secrets, store_secret}
use multiagent_platform_v.Secrets.Isolation.{IsAuthentic, store_secret-IsPrivate}

abbrev seal : String → String → String
seal String.[] value = String.◌∷◌ "0" value
seal (String.◌∷◌ c t) value = String.◌∷◌ "1" (String.◌∷◌ c (seal t value))

abbrev unseal : String → String → Option String
unseal String.[] String.[] = none
unseal String.[] (String.◌∷◌ x s) = if eqb (code x) 48 then some s else none
unseal (String.◌∷◌ c t) String.[] = none
unseal (String.◌∷◌ c t) (String.◌∷◌ x String.[]) = none
unseal (String.◌∷◌ c t) (String.◌∷◌ x (String.◌∷◌ y s)) =
    let rest = unseal t s in
    if eqb (code x) 49 then (if eqb (code y) (code c) then rest else none) else none

unseal-seal : (t value : String) → unseal t (seal t value) ≡ some value
unseal-seal String.[] value = refl
unseal-seal (String.◌∷◌ c t) value =
    let same : eqb (code c) (code c) ≡ true = ground arith in rw (same, unseal-seal t value) refl

unseal-seal_ne : (t u value : String) → t ≢ u → unseal u (seal t value) ≡ none
unseal-seal_ne String.[] String.[] value ne = absurd (ne refl)
unseal-seal_ne String.[] (String.◌∷◌ d u) String.[] ne = refl
unseal-seal_ne String.[] (String.◌∷◌ d u) (String.◌∷◌ y s) ne = refl
unseal-seal_ne (String.◌∷◌ c t) String.[] value ne = refl
unseal-seal_ne (String.◌∷◌ c t) (String.◌∷◌ d u) value ne =
    elim (Bool-cases (eqb (code c) (code d))) [
      | inl same ↦
          let char : c ≡ d = Char-path c d (ground arith) in
          rw same
            (unseal-seal_ne t u value (λ (tail : t ≡ u). ne (λ i. String.◌∷◌ (char i) (tail i))))
      | inr differ ↦ rw differ refl
    ]

abbrev toy : Cipher
toy = record { encrypt = λ tenant_id random value. seal tenant_id value; decrypt = unseal }

seal-ne-nil : (t value : String) → seal t value ≢ ""
seal-ne-nil String.[] value = λ e. cc
seal-ne-nil (String.◌∷◌ c t) value = λ e. cc

toy-IsAuthentic : IsAuthentic memory toy
toy-IsAuthentic = record {
  filled = λ t random value. seal-ne-nil t value;
  opens = λ t random value. unseal-seal t value;
  refuses = λ t u random value ne. unseal-seal_ne t u value ne;
}

-- the two tenants share the key secret:acme:eu:api_key
store_secret-IsPrivate_example :
    (t : memory.Db) × (store_secret memory (some toy) "acme" "eu:api_key" "k-1" 7 empty ≡ did t)
    × (get_secret memory (some toy) "acme" "eu:api_key" (memory.elapse 60 t) ≡ did (some "k-1"))
    × ((get_secret memory (some toy) "acme:eu" "api_key" t
          ≡ get_secret memory (some toy) "acme:eu" "api_key" empty)
        ⊎ (get_secret memory (some toy) "acme:eu" "api_key" t ≡ did none))
store_secret-IsPrivate_example =
    store_secret-IsPrivate memory toy "acme" "eu:api_key" "k-1" 7 empty toy-IsAuthentic 60 "acme:eu"
      "api_key" (ground (arith, eq_iff "acme" "acme:eu"))

-- a name with a colon is cut in the list
listed :
    list_secrets ("secret:acme:api_key" ∷ "secret:acme:eu:api_key" ∷ [])
    ≡ codes "api_key" ∷ codes "api_key" ∷ []
unfolding list_secrets
listed = refl
