-- ===== src/Jobs/Listing.antt =====
-- The list of a tenant's jobs.
use mathlib.Core.List.{Perm}
use mathlib.Core.List.Perm
use multiagent_platform_v.Prelude.{
  All, Bool-cases, List, String, [], arith, get_or, inl, inr, leb, length, length-take, min, refl,
  suc, take, zero, ℕ, ◌∷◌, ◌≡◌, ◌≤◌,
}
use multiagent_platform_v.Documents.{Job}
use multiagent_platform_v.Redis.{Key, Redis}
use multiagent_platform_v.Redis.Commands.{get}
use multiagent_platform_v.Jobs.{insert_job, list_jobs, load_jobs, sort_jobs}

-- each job was created no earlier than those behind it

abbrev pub IsLatestFirst : List Job → Type 0
IsLatestFirst [] = Unit
IsLatestFirst (j ∷ js) = All (λ k. k.created_at ≤ j.created_at) js × IsLatestFirst js

All-insert_job :
    (n : ℕ) (job : Job) (js : List Job)
    → job.created_at ≤ n
    → All (λ k. k.created_at ≤ n) js
    → All (λ k. k.created_at ≤ n) (insert_job job js)
unfolding insert_job
All-insert_job n job [] h hs = (h, tt)
All-insert_job n job (j ∷ js) h hs = ground (arith, All-insert_job n job js h hs.1)

All-weaken :
    (m n : ℕ) (js : List Job)
    → m ≤ n
    → All (λ k. k.created_at ≤ m) js
    → All (λ k. k.created_at ≤ n) js
All-weaken m n [] le h = tt
All-weaken m n (j ∷ js) le h = (omega arith, All-weaken m n js le h.1)

insert_job-IsLatestFirst :
    (job : Job) (js : List Job) → IsLatestFirst js → IsLatestFirst (insert_job job js)
unfolding insert_job
insert_job-IsLatestFirst job [] h = (tt, tt)
insert_job-IsLatestFirst job (j ∷ js) h = elim (Bool-cases (leb j.created_at job.created_at)) [
  | inl older ↦
      rw older ((ground arith, All-weaken j.created_at job.created_at js (ground arith) h.0), h)
  | inr newer ↦
      rw newer
        (All-insert_job j.created_at job js (ground arith) h.0, insert_job-IsLatestFirst job js h.1)
]

sort_jobs-IsLatestFirst : (js : List Job) → IsLatestFirst (sort_jobs js)
unfolding sort_jobs
sort_jobs-IsLatestFirst [] = tt
sort_jobs-IsLatestFirst (j ∷ js) =
    insert_job-IsLatestFirst j (sort_jobs js) (sort_jobs-IsLatestFirst js)

insert_job-perm : (job : Job) (js : List Job) → Perm (insert_job job js) (job ∷ js)
unfolding insert_job
insert_job-perm job [] = Perm.refl (job ∷ [])
insert_job-perm job (j ∷ js) = elim (Bool-cases (leb j.created_at job.created_at)) [
  | inl older ↦ rw older (Perm.refl (job ∷ j ∷ js))
  | inr newer ↦ rw newer (Perm.trans (Perm.cons j (insert_job-perm job js)) (Perm.swap job j js))
]

sort_jobs-perm : (js : List Job) → Perm (sort_jobs js) js
unfolding sort_jobs
sort_jobs-perm [] = Perm.refl []
sort_jobs-perm (j ∷ js) =
    Perm.trans (insert_job-perm j (sort_jobs js)) (Perm.cons j (sort_jobs-perm js))

take-IsLatestFirst : (n : ℕ) (js : List Job) → IsLatestFirst js → IsLatestFirst (take n js)
take-IsLatestFirst zero js h = tt
take-IsLatestFirst (suc n) [] h = tt
take-IsLatestFirst (suc n) (j ∷ js) h = (take-All n js h.0, take-IsLatestFirst n js h.1)
  where
    take-All :
        (n : ℕ) (js : List Job)
        → All (λ k. k.created_at ≤ j.created_at) js
        → All (λ k. k.created_at ≤ j.created_at) (take n js)
    take-All zero js h = tt
    take-All (suc n) [] h = tt
    take-All (suc n) (k ∷ js) h = (h.0, take-All n js h.1)

module _ (R : Redis) where
  -- The jobs of a tenant are listed the latest first, at most `limit` of them. They are the latest
  -- that there are: the first of a list that is the latest first as a whole and that holds each job
  -- of the tenant's set that still has a document, as often as there.
  pub list_jobs_sorted :
      (tenant_id : String) (limit : ℕ) (s : R.Db)
      → let stored = load_jobs R (get_or (get R (Key.tenant_jobs tenant_id) s) []) s in
        let listed = list_jobs R tenant_id limit s in
        IsLatestFirst listed
        × (length listed ≡ min limit (length (sort_jobs stored)))
        × (all : List Job) × IsLatestFirst all
        × Perm all stored
        × (listed ≡ take limit all)
  unfolding list_jobs
  list_jobs_sorted tenant_id limit s =
      let stored = load_jobs R (get_or (get R (Key.tenant_jobs tenant_id) s) []) s in
      (
        take-IsLatestFirst limit (sort_jobs stored) (sort_jobs-IsLatestFirst stored),
        length-take limit (sort_jobs stored),
        sort_jobs stored,
        sort_jobs-IsLatestFirst stored,
        sort_jobs-perm stored,
        refl,
      )
