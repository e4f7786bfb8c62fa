-- ===== src/Redis/Commands.antt =====
-- The commands that the program sends, named after redis-py. A read is `peek` at no delay; a
-- command that changes a value atomically is `update` with one of the functions below.
use multiagent_platform_v.Prelude.{
  ℕ, suc, ℤ, pos, succ_ℤ, pred_ℤ, String, Bool, true, false, Option, none, some, List, [], ◌∷◌,
  ◌==◌, ◌||◌, take, if◌then◌else◌,
}
use multiagent_platform_v.Redis.{Key, Val, Redis}

-- INCR and DECR: a missing counter is 0

abbrev pub incremented : Option ℤ → ℤ
incremented none = pos 1
incremented (some n) = succ_ℤ n

abbrev pub decremented : Option ℤ → ℤ
decremented none = pred_ℤ (pos 0)
decremented (some n) = pred_ℤ n

-- INCR of a counter that nothing lowers
abbrev pub counted : Option ℕ → ℕ
counted none = 1
counted (some n) = suc n

module _ {A : Type 0} where
  -- LPUSH
  abbrev pub lpushed : A → Option (List A) → List A
  lpushed a none = a ∷ []
  lpushed a (some l) = a ∷ l

  -- LTRIM key 0 (n - 1)
  abbrev pub ltrimmed : ℕ → Option (List A) → List A
  ltrimmed n none = []
  ltrimmed n (some l) = take n l

abbrev pub contains : String → List String → Bool
contains a [] = false
contains a (x ∷ xs) = x == a || contains a xs

-- SADD
abbrev pub sadded : String → Option (List String) → List String
sadded a none = a ∷ []
sadded a (some l) = if contains a l then l else a ∷ l

module _ (R : Redis) where
  -- GET
  abbrev pub get : (k : Key) → R.Db → Option (Val k)
  get k s = R.peek s k 0

  -- SETEX key ttl value
  abbrev pub setex : (k : Key) → ℕ → Val k → R.Db → R.Db
  setex k ttl v s = R.store k v (some ttl) s

  -- EXISTS
  abbrev pub exists : (k : Key) → R.Db → Bool
  exists k s = elim (R.peek s k 0) [ none ↦ false | some _ ↦ true ]

  -- SET key value NX EX ttl: whether it was set
  unfoldable pub set_nx : (k : Key) → ℕ → Val k → R.Db → Bool × R.Db
  set_nx k ttl v s = elim (R.peek s k 0) [
    | none ↦ (true, R.store k v (some ttl) s)
    | some _ ↦ (false, s)
  ]
