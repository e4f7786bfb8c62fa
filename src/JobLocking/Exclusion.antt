-- ===== src/JobLocking/Exclusion.antt =====
-- Workers that compete for the lock of one job. Celery kills a task after its time limit, and the
-- lock outlives that limit.
use multiagent_platform_v.Prelude.{
  All, Bool, List, Option-cases, String, [], arith, false, inl, inr, length, none, some, subst, sym,
  true, ℕ, ◌+◌, ◌<◌, ◌∙◌, ◌∷◌, ◌≡◌, ◌≤◌,
}
use multiagent_platform_v.Redis.{Key, Redis}
use multiagent_platform_v.JobLocking.{acquire_job_lock, release_job_lock}

module _ (R : Redis) (lock_ttl time_limit : ℕ) (job_id : String) where
  -- the server, and for each worker inside the guarded section the seconds since its acquisition
  pub record System : Type 0 where
    pub db : R.Db
    pub holders : List ℕ

  abbrev pub enter : Bool × R.Db → List ℕ → System
  enter (true, db) holders = record { db = db; holders = 0 ∷ holders }
  enter (false, db) holders = record { db = db; holders = holders }

  -- each holder is `n` seconds older
  abbrev pub aged : ℕ → List ℕ → List ℕ
  aged n [] = []
  aged n (a ∷ l) = (n + a) ∷ aged n l

  -- `others` is `holders` less one of them
  pub data Leaves : List ℕ → List ℕ → Type 0 where
    first : (a : ℕ) (l : List ℕ) → Leaves (a ∷ l) l
    later : (a : ℕ) {l l' : List ℕ} → Leaves l l' → Leaves (a ∷ l) (a ∷ l')

  pub data Step (s t : System) : Type 0 where
    -- a delivery of the task tries the lock, and goes in if it gets it
    attempt : t ≡ enter (acquire_job_lock R lock_ttl job_id s.db) s.holders → Step s t
    -- `finally: release_job_lock_sync(job_id)`
    finish :
        (others : List ℕ)
        → Leaves s.holders others
        → t ≡ record { db = release_job_lock R lock_ttl job_id s.db; holders = others }
        → Step s t
    -- a worker dies, or is killed, and releases nothing
    crash :
        (others : List ℕ) → Leaves s.holders others → t ≡ record s { holders = others } → Step s t
    -- no task runs on past its time limit
    pass :
        (n : ℕ)
        → All (λ a. a ≤ time_limit) (aged n s.holders)
        → t ≡ record { db = R.elapse n s.db; holders = aged n s.holders }
        → Step s t
    -- commands on other keys
    other :
        (db : R.Db)
        → ((d : ℕ) → R.peek db (Key.job_lock job_id) d ≡ R.peek s.db (Key.job_lock job_id) d)
        → t ≡ record s { db = db }
        → Step s t

  pub data Run : System → System → Type 0 where
    stop : (s : System) → Run s s
    next : {s t u : System} → Step s t → Run t u → Run s u

  -- at most one holder, and its lock lasts to the end of its time
  abbrev pub IsExclusive : R.Db → List ℕ → Type 0
  IsExclusive db [] = Unit {0}
  IsExclusive db (a ∷ []) =
      (a ≤ time_limit)
      × ((d : ℕ) → d + a < lock_ttl → R.peek db (Key.job_lock job_id) d ≡ some "locked")
  IsExclusive db (a ∷ b ∷ l) = ⊥

  abbrev pub IsSafe : System → Type 0
  IsSafe s = IsExclusive s.db s.holders

  acquire_free :
      (db : R.Db)
      → R.peek db (Key.job_lock job_id) 0 ≡ none
      → acquire_job_lock R lock_ttl job_id db
        ≡ (true, R.store (Key.job_lock job_id) "locked" (some lock_ttl) db)
  unfolding acquire_job_lock
  acquire_free db h = ground arith

  acquire_held :
      (db : R.Db) (v : String)
      → R.peek db (Key.job_lock job_id) 0 ≡ some v
      → acquire_job_lock R lock_ttl job_id db ≡ (false, db)
  unfolding acquire_job_lock
  acquire_held db v h = ground arith

  attempt-IsSafe :
      (db : R.Db) (holders : List ℕ)
      → time_limit < lock_ttl
      → IsExclusive db holders
      → IsSafe (enter (acquire_job_lock R lock_ttl job_id db) holders)
  attempt-IsSafe db [] short h = elim (Option-cases (R.peek db (Key.job_lock job_id) 0)) [
    | inl free ↦
        rw (acquire_free db free) (omega arith, λ d le. rw R.peek-store_self (ground arith))
    | inr (v, held) ↦ rw (acquire_held db v held) tt
  ]
  attempt-IsSafe db (a ∷ []) short h = rw (acquire_held db "locked" (h.1 0 (omega arith))) h
  attempt-IsSafe db (a ∷ b ∷ l) short h = absurd h

  leave-IsSafe :
      (db db' : R.Db) {holders others : List ℕ}
      → Leaves holders others
      → IsExclusive db holders
      → IsExclusive db' others
  leave-IsSafe db db' (first a []) h = tt
  leave-IsSafe db db' (first a (b ∷ l)) h = absurd h
  leave-IsSafe db db' (later a (first b l)) h = absurd h
  leave-IsSafe db db' (later a (later b m)) h = absurd h

  pass-IsSafe :
      (n : ℕ) (db : R.Db) (holders : List ℕ)
      → All (λ a. a ≤ time_limit) (aged n holders)
      → IsExclusive db holders
      → IsExclusive (R.elapse n db) (aged n holders)
  pass-IsSafe n db [] young h = tt
  pass-IsSafe n db (a ∷ []) young h =
      (young.0, λ d le. rw R.peek-elapse (h.1 (n + d) (omega arith)))
  pass-IsSafe n db (a ∷ b ∷ l) young h = absurd h

  other-IsSafe :
      (db db' : R.Db) (holders : List ℕ)
      → ((d : ℕ) → R.peek db' (Key.job_lock job_id) d ≡ R.peek db (Key.job_lock job_id) d)
      → IsExclusive db holders
      → IsExclusive db' holders
  other-IsSafe db db' [] same h = tt
  other-IsSafe db db' (a ∷ []) same h = (h.0, λ d le. same d ∙ h.1 d le)
  other-IsSafe db db' (a ∷ b ∷ l) same h = absurd h

  Step-IsSafe : (s t : System) → time_limit < lock_ttl → Step s t → IsSafe s → IsSafe t
  Step-IsSafe s t short (attempt e) h = rw e (attempt-IsSafe s.db s.holders short h)
  Step-IsSafe s t short (finish others m e) h =
      rw e (leave-IsSafe s.db (release_job_lock R lock_ttl job_id s.db) m h)
  Step-IsSafe s t short (crash others m e) h = rw e (leave-IsSafe s.db s.db m h)
  Step-IsSafe s t short (pass n young e) h = rw e (pass-IsSafe n s.db s.holders young h)
  Step-IsSafe s t short (other db same e) h = rw e (other-IsSafe s.db db s.holders same h)

  Run-IsSafe : {s t : System} → time_limit < lock_ttl → Run s t → IsSafe s → IsSafe t
  Run-IsSafe short (stop s) h = h
  Run-IsSafe short (next {s} {t} st r) h = Run-IsSafe short r (Step-IsSafe s t short st h)

  -- However attempts, ends, crashes, other commands and the passing of time interleave, at most one
  -- worker is inside the guarded section of a job, where the lock's time to live exceeds the time
  -- limit that Celery enforces and nobody was inside at the start.
  pub Run-exclusive :
      {s t : System} → time_limit < lock_ttl → s.holders ≡ [] → Run s t → length t.holders ≤ 1
  Run-exclusive {s} {t} short none_in r =
      one t.db t.holders (Run-IsSafe short r (subst (IsExclusive s.db) (sym none_in) tt))
    where
      one : (db : R.Db) (holders : List ℕ) → IsExclusive db holders → length holders ≤ 1
      one db [] h = omega arith
      one db (a ∷ []) h = omega arith
      one db (a ∷ b ∷ l) h = absurd h
