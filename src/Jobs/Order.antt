-- ===== src/Jobs/Order.antt =====
-- Redis answers SMEMBERS in any order: the list of a tenant's jobs does not depend on it.
use mathlib.Core.List.{Memᴰ, Permᴰ}
use mathlib.Core.List.Permᴰ
use multiagent_platform_v.Prelude.{
  Bool-cases, List, Option, Option-cases, String, [], ap, arith, eqb, inl, inr, none, refl, some,
  subst, sym, take, ℕ, ◌∙◌, ◌∷◌, ◌≡◌, ◌≢◌,
}
use multiagent_platform_v.Documents.{Job}
use multiagent_platform_v.Redis.{Key, Redis}
use multiagent_platform_v.Jobs.{get_job, insert_job, list_jobs, load_jobs, sort_jobs}

-- jobs that were created at the same time are the same job

abbrev pub IsTimed : List Job → Type 0
IsTimed jobs = (a b : Job) → Memᴰ a jobs → Memᴰ b jobs → a.created_at ≡ b.created_at → a ≡ b

insert_job-swap :
    (a b : Job) (jobs : List Job)
    → a.created_at ≢ b.created_at
    → insert_job a (insert_job b jobs) ≡ insert_job b (insert_job a jobs)
unfolding insert_job
insert_job-swap a b [] ne = ground arith
insert_job-swap a b (j ∷ jobs) ne = ground (arith, insert_job-swap a b jobs ne)

insert_job-swap_same :
    (a b : Job) (jobs : List Job)
    → (a.created_at ≡ b.created_at → a ≡ b)
    → insert_job a (insert_job b jobs) ≡ insert_job b (insert_job a jobs)
insert_job-swap_same a b jobs same = elim (Bool-cases (eqb a.created_at b.created_at)) [
  | inl equal ↦
      let e : a ≡ b = same (ground arith) in λ i. insert_job (e i) (insert_job (sym e i) jobs)
  | inr differ ↦ insert_job-swap a b jobs (ground arith)
]

moved : {job : Job} {js ks : List Job} → Permᴰ js ks → Memᴰ job js → Memᴰ job ks
moved Permᴰ.nil m = m
moved (Permᴰ.cons e d) (Memᴰ.head p) = Memᴰ.head (p ∙ e)
moved (Permᴰ.cons e d) (Memᴰ.tail m) = Memᴰ.tail (moved d m)
moved (Permᴰ.swap e1 e2) (Memᴰ.head p) = Memᴰ.tail (Memᴰ.head (p ∙ e1))
moved (Permᴰ.swap e1 e2) (Memᴰ.tail (Memᴰ.head p)) = Memᴰ.head (p ∙ e2)
moved (Permᴰ.swap e1 e2) (Memᴰ.tail (Memᴰ.tail m)) = Memᴰ.tail (Memᴰ.tail m)
moved (Permᴰ.trans d1 d2) m = moved d2 (moved d1 m)

sort_jobs-unordered : {js ks : List Job} → Permᴰ js ks → IsTimed js → sort_jobs js ≡ sort_jobs ks
unfolding sort_jobs
sort_jobs-unordered Permᴰ.nil timed = refl
sort_jobs-unordered (Permᴰ.cons e d) timed = λ i.
    insert_job (e i) (sort_jobs-unordered d (λ x y m n. timed x y (Memᴰ.tail m) (Memᴰ.tail n)) i)
sort_jobs-unordered (Permᴰ.swap {a = a} {b = b} {l = l} e1 e2) timed =
    insert_job-swap_same a b (sort_jobs l) (timed a b (Memᴰ.head refl) (Memᴰ.tail (Memᴰ.head refl)))
    ∙ (λ i. insert_job (e2 i) (insert_job (e1 i) (sort_jobs l)))
sort_jobs-unordered (Permᴰ.trans d1 d2) timed =
    sort_jobs-unordered d1 timed
    ∙ sort_jobs-unordered d2
        (λ x y m n. timed x y (moved (Permᴰ.symm d1) m) (moved (Permᴰ.symm d1) n))

load_jobs-alike :
    (R : Redis) (s t : R.Db)
    → ((job_id : String) → get_job R job_id s ≡ get_job R job_id t)
    → (ids : List String) → load_jobs R ids s ≡ load_jobs R ids t
unfolding load_jobs
load_jobs-alike R s t same [] = refl
load_jobs-alike R s t same (job_id ∷ ids) = λ i.
    let rest = load_jobs-alike R s t same ids i in
    elim (same job_id i) [ none ↦ rest | some job ↦ job ∷ rest ]

-- a job in front, where there is one
abbrev add_found : Option Job → List Job → List Job
add_found none rest = rest
add_found (some job) rest = job ∷ rest

swap_found :
    (o p : Option Job) (rest : List Job)
    → Permᴰ (add_found o (add_found p rest)) (add_found p (add_found o rest))
swap_found none p rest = Permᴰ.refl _
swap_found (some x) none rest = Permᴰ.refl _
swap_found (some x) (some y) rest = Permᴰ.swap refl refl

cons_found :
    (o : Option Job) {js ks : List Job} → Permᴰ js ks → Permᴰ (add_found o js) (add_found o ks)
cons_found none d = d
cons_found (some x) d = Permᴰ.cons refl d

module _ (R : Redis) (s : R.Db) where
  load_add :
      (a : String) (ids : List String)
      → load_jobs R (a ∷ ids) s ≡ add_found (get_job R a s) (load_jobs R ids s)
  unfolding load_jobs
  load_add a ids = elim (Option-cases (get_job R a s)) [
    | inl missing ↦ rw (load_jobs, missing) refl
    | inr (x, stored) ↦ rw (load_jobs, stored) refl
  ]

  load_two :
      (a b : String) (ids : List String)
      → load_jobs R (a ∷ b ∷ ids) s
        ≡ add_found (get_job R a s) (add_found (get_job R b s) (load_jobs R ids s))
  load_two a b ids = load_add a (b ∷ ids) ∙ ap (add_found (get_job R a s)) (load_add b ids)

  load_swap :
      (a b : String) (ids : List String)
      → Permᴰ (load_jobs R (a ∷ b ∷ ids) s) (load_jobs R (b ∷ a ∷ ids) s)
  load_swap a b ids =
      rw (load_two a b ids, load_two b a ids)
        (swap_found (get_job R a s) (get_job R b s) (load_jobs R ids s))

  load_cons :
      (a : String) (ids ids' : List String)
      → Permᴰ (load_jobs R ids s) (load_jobs R ids' s)
      → Permᴰ (load_jobs R (a ∷ ids) s) (load_jobs R (a ∷ ids') s)
  load_cons a ids ids' d = rw (load_add a ids, load_add a ids') (cons_found (get_job R a s) d)

  load_jobs-perm :
      {ids ids' : List String} → Permᴰ ids ids' → Permᴰ (load_jobs R ids s) (load_jobs R ids' s)
  unfolding load_jobs
  load_jobs-perm Permᴰ.nil = Permᴰ.refl _
  load_jobs-perm (Permᴰ.cons {a = a} {l₁ = k} {l₂ = l} e d) =
      subst (λ c. Permᴰ (load_jobs R (a ∷ k) s) (load_jobs R (c ∷ l) s)) e
        (load_cons a k l (load_jobs-perm d))
  load_jobs-perm (Permᴰ.swap {a = a} {b = b} {l = l} e1 e2) =
      subst
        (λ (c : String × String). Permᴰ (load_jobs R (a ∷ b ∷ l) s) (load_jobs R (c.0 ∷ c.1 ∷ l) s))
        (λ i. (e2 i, e1 i)) (load_swap a b l)
  load_jobs-perm (Permᴰ.trans d1 d2) = Permᴰ.trans (load_jobs-perm d1) (load_jobs-perm d2)

module _ (R : Redis) (tenant_id : String) where
  -- Whatever order the server answers the tenant's set of job ids in: two servers with the same
  -- documents and the same set in different orders list the same jobs in the same order, cut to the
  -- same limit, as long as no two different jobs were created at the same time.
  pub list_jobs-unordered :
      (ids ids' : List String) (limit : ℕ) (s t : R.Db)
      → Permᴰ ids ids'
      → R.peek s (Key.tenant_jobs tenant_id) 0 ≡ some ids
      → R.peek t (Key.tenant_jobs tenant_id) 0 ≡ some ids'
      → ((job_id : String) → get_job R job_id s ≡ get_job R job_id t)
      → IsTimed (load_jobs R ids s)
      → list_jobs R tenant_id limit s ≡ list_jobs R tenant_id limit t
  unfolding list_jobs
  list_jobs-unordered ids ids' limit s t order here there same timed =
      rw (list_jobs, here, there)
        (ap (take limit) (
          sort_jobs-unordered (load_jobs-perm R s order) timed
          ∙ ap sort_jobs (load_jobs-alike R s t same ids')))
