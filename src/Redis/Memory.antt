-- ===== src/Redis/Memory.antt =====
-- A server in memory that meets the interface: a clock, and for each key a value with the time at
-- which it goes. It is used in tests and witnesses only.
use native.Mathlib.Decide.{ℕ_discrete}
use native.Mathlib.Nat.{add_assoc}
use mathlib.Core.Logic.{dite, dif_pos, dif_neg}
use mathlib.Core.HLevel.{hedberg}
use mathlib.Core.Path.{subst_refl}
use multiagent_platform_v.Prelude.{
  ℕ, ◌+◌, String, ◌≡◌, ◌≢◌, refl, ap, ◌∙◌, subst, inl, inr, Bool, true, Option, none, some, arith,
  ltb, eq_iff, ◌==◌, if◌then◌else◌, Bool-cases,
}
use multiagent_platform_v.Redis.{Key, Val, Redis, within, updated}

pub String-discrete : Discrete String
String-discrete s t = elim (Bool-cases (s == t)) [
  | inl e ↦ yes ((eq_iff s t).0 e)
  | inr e ↦ no (λ p. ground (arith, eq_iff s t))
]

Key-discrete : Discrete Key
Key-discrete = hlevel (ℕ_discrete, String-discrete)

abbrev pub Cell : Key → Type 0
Cell k = Option (Val k × Option ℕ)

pub record Db : Type 0 where
  pub now : ℕ
  pub cells : (k : Key) → Cell k

alive : Option ℕ → ℕ → Bool
alive none t = true
alive (some e) t = ltb t e

look : {A : Type 0} → Option (A × Option ℕ) → ℕ → Option A
unfolding alive
look none t = none
look (some (v, e)) t = if alive e t then some v else none

put : (k : Key) → Cell k → ((j : Key) → Cell j) → (j : Key) → Cell j
put k c f j = dite (Key-discrete k j) (λ p. subst Cell p c) (λ _. f j)

put_self : (k : Key) (c : Cell k) (f : (j : Key) → Cell j) → put k c f k ≡ c
unfolding put
put_self k c f =
    dif_pos (Key-discrete k k) (hedberg Key-discrete k k) refl (λ p. subst Cell p c) (λ _. f k)
    ∙ subst_refl Cell c

put_ne : (k j : Key) (c : Cell k) (f : (j : Key) → Cell j) → k ≢ j → put k c f j ≡ f j
unfolding put
put_ne k j c f ne = dif_neg (Key-discrete k j) ne (λ p. subst Cell p c) (λ _. f j)

pub peek : Db → (k : Key) → ℕ → Option (Val k)
peek s k d = look (s.cells k) (s.now + d)

due : Option ℕ → ℕ → Option ℕ
due none now = none
due (some ttl) now = some (now + ttl)

pub store : (k : Key) → Val k → Option ℕ → Db → Db
unfolding due
store k v ttl s = record s { cells = put k (some (v, due ttl s.now)) s.cells }

pub delete : Key → Db → Db
delete k s = record s { cells = put k none s.cells }

-- a value that is there gets a new deadline
postpone : {A : Type 0} → Option A → ℕ → Option (A × Option ℕ)
postpone none t = none
postpone (some v) t = some (v, some t)

pub expire : Key → ℕ → Db → Db
unfolding postpone
expire k n s = record s { cells = put k (postpone (peek s k 0) (s.now + n)) s.cells }

renew : {A : Type 0} → (Option A → A) → Option (A × Option ℕ) → Option A → Option (A × Option ℕ)
renew f (some (_, e)) (some v) = some (f (some v), e)
renew f _ _ = some (f none, none)

pub update : (k : Key) → (Option (Val k) → Val k) → Db → Db
unfolding renew
update k f s = record s { cells = put k (renew f (s.cells k) (peek s k 0)) s.cells }

pub elapse : ℕ → Db → Db
elapse n s = record s { now = s.now + n }

-- the laws, cell by cell
look-due :
    {A : Type 0} (v : A) (ttl : Option ℕ) (now d : ℕ)
    → look (some (v, due ttl now)) (now + d) ≡ within ttl d v
unfolding look due
look-due v none now d = refl
look-due v (some ttl) now d = ground arith

look-postpone :
    {A : Type 0} (o : Option A) (now n d : ℕ)
    → look (postpone o (now + n)) (now + d) ≡ (if ltb d n then o else none)
unfolding look postpone
look-postpone none now n d = ground arith
look-postpone (some v) now n d = ground arith

look-renew :
    {A : Type 0} (f : Option A → A) (c : Option (A × Option ℕ)) (now d : ℕ)
    → look (renew f c (look c (now + 0))) (now + d)
      ≡ updated f (look c (now + 0)) (look c (now + d))
unfolding look renew
look-renew f none now d = refl
look-renew f (some (v, none)) now d = refl
look-renew f (some (v, some e)) now d = ground arith

pub peek-store_ne :
    (k j : Key) (v : Val k) (ttl : Option ℕ) (s : Db) (d : ℕ)
    → k ≢ j
    → peek (store k v ttl s) j d ≡ peek s j d
unfolding peek store
peek-store_ne k j v ttl s d ne =
    ap (λ c. look c (s.now + d)) (put_ne k j (some (v, due ttl s.now)) s.cells ne)

pub peek-delete_ne : (k j : Key) (s : Db) (d : ℕ) → k ≢ j → peek (delete k s) j d ≡ peek s j d
unfolding peek delete
peek-delete_ne k j s d ne = ap (λ c. look c (s.now + d)) (put_ne k j none s.cells ne)

pub peek-expire_ne :
    (k j : Key) (n : ℕ) (s : Db) (d : ℕ) → k ≢ j → peek (expire k n s) j d ≡ peek s j d
unfolding peek expire
peek-expire_ne k j n s d ne =
    ap (λ c. look c (s.now + d)) (put_ne k j (postpone (peek s k 0) (s.now + n)) s.cells ne)

pub peek-update_ne :
    (k j : Key) (f : Option (Val k) → Val k) (s : Db) (d : ℕ)
    → k ≢ j
    → peek (update k f s) j d ≡ peek s j d
unfolding peek update
peek-update_ne k j f s d ne =
    ap (λ c. look c (s.now + d)) (put_ne k j (renew f (s.cells k) (peek s k 0)) s.cells ne)

pub peek-store_self :
    (k : Key) (v : Val k) (ttl : Option ℕ) (s : Db) (d : ℕ)
    → peek (store k v ttl s) k d ≡ within ttl d v
unfolding peek store
peek-store_self k v ttl s d =
    ap (λ c. look c (s.now + d)) (put_self k (some (v, due ttl s.now)) s.cells)
    ∙ look-due v ttl s.now d

pub peek-delete_self : (k : Key) (s : Db) (d : ℕ) → peek (delete k s) k d ≡ none
unfolding peek delete look
peek-delete_self k s d = ap (λ c. look c (s.now + d)) (put_self k none s.cells)

pub peek-expire_self :
    (k : Key) (n : ℕ) (s : Db) (d : ℕ)
    → peek (expire k n s) k d ≡ (if ltb d n then peek s k 0 else none)
unfolding peek expire
peek-expire_self k n s d =
    ap (λ c. look c (s.now + d)) (put_self k (postpone (peek s k 0) (s.now + n)) s.cells)
    ∙ look-postpone (peek s k 0) s.now n d

pub peek-update_self :
    (k : Key) (f : Option (Val k) → Val k) (s : Db) (d : ℕ)
    → peek (update k f s) k d ≡ updated f (peek s k 0) (peek s k d)
unfolding peek update
peek-update_self k f s d =
    ap (λ c. look c (s.now + d)) (put_self k (renew f (s.cells k) (peek s k 0)) s.cells)
    ∙ look-renew f (s.cells k) s.now d

pub peek-elapse : (n : ℕ) (s : Db) (k : Key) (d : ℕ) → peek (elapse n s) k d ≡ peek s k (n + d)
unfolding peek elapse
peek-elapse n s k d = ap (look (s.cells k)) (add_assoc s.now n d)

pub memory : Redis
memory = record {
  Db = Db;
  peek = peek;
  store = store;
  delete = delete;
  expire = expire;
  update = update;
  elapse = elapse;
  peek-store_self = peek-store_self;
  peek-store_ne = peek-store_ne;
  peek-delete_self = peek-delete_self;
  peek-delete_ne = peek-delete_ne;
  peek-expire_self = peek-expire_self;
  peek-expire_ne = peek-expire_ne;
  peek-update_self = peek-update_self;
  peek-update_ne = peek-update_ne;
  peek-elapse = peek-elapse;
}

-- a server just started: no key is set
pub empty : memory.Db
unfolding memory
empty = record { now = 0; cells = λ k. none }

pub peek-empty : (k : Key) (d : ℕ) → memory.peek empty k d ≡ none
unfolding empty memory peek look
peek-empty k d = refl
