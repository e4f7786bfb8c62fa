-- ===== src/Redis.antt =====
-- The Redis server that every part of the program talks to. The server is not part of the
-- repository, so it is an interface: the commands, with the laws that their documentation states.
-- The keys are those of the program: a constructor stands for a key's fixed text, its argument for
-- the part that is put in; where there are several, those before the last have no colon. A command
-- is taken to succeed; a lost connection is not modelled.
pub mod Commands
pub mod Memory
use multiagent_platform_v.Prelude.{
  ℕ, ◌+◌, ℤ, String, ◌≡◌, ◌≢◌, Option, none, some, List, ltb, if◌then◌else◌,
}
use multiagent_platform_v.Documents.{
  Circuit, Job, Approval, Response, DeadJob, AuditEntry, DecisionMemory, ResetEntry, DecisionEntry,
}

pub data Key : Type 0 where
  -- circuit:_, job:_, job_lock:_, tenant:jobs:_
  circuit job job_lock tenant_jobs : String → Key
  -- hitl:approval:_, hitl:job:_
  hitl_approval hitl_job : String → Key
  -- queue:global:depth, queue:tenant:_:depth
  queue_global : Key
  queue_tenant : String → Key
  -- ratelimit:{tenant_id}:{window}
  ratelimit : String → ℕ → Key
  -- idempotency:_ and audit:_
  idempotency audit : String → Key
  -- dlq:failed_jobs
  dlq : Key
  -- memory:{tenant_id}:{sector}:{product_id}:last_decision, and :reset_log
  last_decision reset_log : String → String → String → Key
  -- cost:{tenant_id}:daily:{day} and cost:{tenant_id}:monthly:{month}
  cost_daily cost_monthly : String → ℕ → Key
  -- kpi:decisions:{tenant_id}
  decisions : String → Key
  -- secret:_
  secret : String → Key

-- what a key holds
abbrev pub Val : Key → Type 0
Val (Key.circuit _) = Circuit
Val (Key.job _) = Job
Val (Key.job_lock _) = String
Val (Key.tenant_jobs _) = List String
Val (Key.hitl_approval _) = Approval
Val (Key.hitl_job _) = String
Val Key.queue_global = ℤ
Val (Key.queue_tenant _) = ℤ
Val (Key.ratelimit _ _) = ℕ
Val (Key.idempotency _) = Response
Val (Key.audit _) = List AuditEntry
Val Key.dlq = List DeadJob
Val (Key.last_decision _ _ _) = DecisionMemory
Val (Key.reset_log _ _ _) = List ResetEntry
Val (Key.cost_daily _ _) = ℕ
Val (Key.cost_monthly _ _) = ℕ
Val (Key.decisions _) = List DecisionEntry
Val (Key.secret _) = String

-- what is left, after `d` seconds, of a value with a time to live
abbrev pub within {ℓ} : {A : Type ℓ} → Option ℕ → ℕ → A → Option A
within none d v = some v
within (some ttl) d v = if ltb d ttl then some v else none

-- INCR, LPUSH and the like: the new value has the old one's expiry, and none if the key is new
abbrev pub updated {ℓ} :
    {A : Type ℓ} → (Option A → A) → (now : Option A) → (later : Option A) → Option A
updated f none later = some (f none)
updated f (some v) none = none
updated f (some v) (some w) = some (f (some v))

pub record Redis : Type 1 where
  pub Db : Type 0
  -- what GET answers after so many seconds in which no command is sent
  pub peek : Db → (k : Key) → ℕ → Option (Val k)
  -- SET with or without EX, SETEX
  pub store : (k : Key) → Val k → Option ℕ → Db → Db
  -- DEL
  pub delete : Key → Db → Db
  -- EXPIRE
  pub expire : Key → ℕ → Db → Db
  -- a command that replaces a value by a function of it, atomically
  pub update : (k : Key) → (Option (Val k) → Val k) → Db → Db
  -- time passes
  pub elapse : ℕ → Db → Db
  pub peek-store_self :
      (k : Key) (v : Val k) (ttl : Option ℕ) (s : Db) (d : ℕ)
      → peek (store k v ttl s) k d ≡ within ttl d v
  pub peek-store_ne :
      (k j : Key) (v : Val k) (ttl : Option ℕ) (s : Db) (d : ℕ)
      → k ≢ j
      → peek (store k v ttl s) j d ≡ peek s j d
  pub peek-delete_self : (k : Key) (s : Db) (d : ℕ) → peek (delete k s) k d ≡ none
  pub peek-delete_ne : (k j : Key) (s : Db) (d : ℕ) → k ≢ j → peek (delete k s) j d ≡ peek s j d
  pub peek-expire_self :
      (k : Key) (n : ℕ) (s : Db) (d : ℕ)
      → peek (expire k n s) k d ≡ (if ltb d n then peek s k 0 else none)
  pub peek-expire_ne :
      (k j : Key) (n : ℕ) (s : Db) (d : ℕ) → k ≢ j → peek (expire k n s) j d ≡ peek s j d
  pub peek-update_self :
      (k : Key) (f : Option (Val k) → Val k) (s : Db) (d : ℕ)
      → peek (update k f s) k d ≡ updated f (peek s k 0) (peek s k d)
  pub peek-update_ne :
      (k j : Key) (f : Option (Val k) → Val k) (s : Db) (d : ℕ)
      → k ≢ j
      → peek (update k f s) j d ≡ peek s j d
  pub peek-elapse : (n : ℕ) (s : Db) (k : Key) (d : ℕ) → peek (elapse n s) k d ≡ peek s k (n + d)
