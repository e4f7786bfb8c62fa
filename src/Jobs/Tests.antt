-- ===== src/Jobs/Tests.antt =====
-- Jobs at concrete inputs, on a server in memory.
use mathlib.Core.List.{Memᴰ, Perm, Permᴰ}
use multiagent_platform_v.Prelude.{
  List, String, ap, arith, eq_iff, subst, sym, ◌∙◌, [], get_or, length, min, none, refl, some, take,
  ℕ, ◌∷◌, ◌≡◌,
}
use multiagent_platform_v.State.{InputData}
use multiagent_platform_v.Documents.{Job}
use multiagent_platform_v.Redis.{Key}
use multiagent_platform_v.Redis.Commands.{get}
use multiagent_platform_v.Redis.Memory.{empty, memory}
use multiagent_platform_v.Jobs.{
  create_job, get_job, job_ttl, list_jobs, load_jobs, new_job, sort_jobs,
}
use multiagent_platform_v.Jobs.Order.{IsTimed, list_jobs-unordered}
use multiagent_platform_v.Jobs.Listing.{IsLatestFirst, list_jobs_sorted}

abbrev order : InputData
order = record {
  location = some "Tunis, Tunisia";
  product_id = some "HARISSA-140G";
  webhook_url = none;
}

abbrev one_job : memory.Db
one_job = create_job memory "job-1" "acme" "supply_chain" order 100 empty

abbrev job_at : ℕ → Job
job_at now = new_job "job" "acme" "supply_chain" order now

sorted : sort_jobs (job_at 3 ∷ job_at 9 ∷ job_at 5 ∷ []) ≡ job_at 9 ∷ job_at 5 ∷ job_at 3 ∷ []
unfolding sort_jobs new_job
sorted = refl

list_jobs_sorted_example :
    let stored =
      load_jobs memory (get_or (get memory (Key.tenant_jobs "acme") one_job) []) one_job in
    let listed = list_jobs memory "acme" 20 one_job in
    IsLatestFirst listed
    × (length listed ≡ min 20 (length (sort_jobs stored)))
    × (all : List Job) × IsLatestFirst all
    × Perm all stored
    × (listed ≡ take 20 all)
list_jobs_sorted_example = list_jobs_sorted memory "acme" 20 one_job

-- two jobs, and the tenant's set in either order
abbrev second : Job
second = new_job "job-2" "acme" "supply_chain" order 200

abbrev two_jobs : memory.Db
two_jobs = memory.store (Key.job "job-2") second (some job_ttl) (
    memory.store (Key.job "job-1") (new_job "job-1" "acme" "supply_chain" order 100) (some job_ttl)
      empty)

abbrev listing : List String → memory.Db
listing ids = memory.store (Key.tenant_jobs "acme") ids none two_jobs

jobs_kept :
    (ids : List String) (job_id : String)
    → get_job memory job_id (listing ids) ≡ get_job memory job_id two_jobs
jobs_kept ids job_id =
    memory.peek-store_ne (Key.tenant_jobs "acme") (Key.job job_id) ids none two_jobs 0
      (ground arith)

found_second : get_job memory "job-2" two_jobs ≡ some second
found_second = memory.peek-store_self (Key.job "job-2") second (some job_ttl) _ 0

found_first :
    get_job memory "job-1" two_jobs ≡ some (new_job "job-1" "acme" "supply_chain" order 100)
found_first =
    memory.peek-store_ne (Key.job "job-2") (Key.job "job-1") second (some job_ttl) _ 0
      (ground (arith, eq_iff "job-2" "job-1"))
    ∙ memory.peek-store_self (Key.job "job-1") (new_job "job-1" "acme" "supply_chain" order 100)
        (some job_ttl) empty 0

loaded :
    load_jobs memory ("job-1" ∷ "job-2" ∷ []) (listing ("job-1" ∷ "job-2" ∷ []))
    ≡ new_job "job-1" "acme" "supply_chain" order 100 ∷ second ∷ []
unfolding load_jobs
loaded =
    let ids : List String = "job-1" ∷ "job-2" ∷ [] in
    let first_kept = jobs_kept ids "job-1" ∙ found_first in
    let second_kept = jobs_kept ids "job-2" ∙ found_second in
    rw (load_jobs, first_kept, load_jobs, second_kept) refl

timed : IsTimed (new_job "job-1" "acme" "supply_chain" order 100 ∷ second ∷ [])
unfolding new_job
timed a b (Memᴰ.head p) (Memᴰ.head q) h = p ∙ sym q
timed a b (Memᴰ.head p) (Memᴰ.tail (Memᴰ.head q)) h =
    absurd (ground (arith, sym (ap (λ j. j.created_at) p) ∙ h ∙ ap (λ j. j.created_at) q))
timed a b (Memᴰ.tail (Memᴰ.head p)) (Memᴰ.head q) h =
    absurd (ground (arith, sym (ap (λ j. j.created_at) p) ∙ h ∙ ap (λ j. j.created_at) q))
timed a b (Memᴰ.tail (Memᴰ.head p)) (Memᴰ.tail (Memᴰ.head q)) h = p ∙ sym q
timed a b (Memᴰ.head p) (Memᴰ.tail (Memᴰ.tail n)) h = elim n [ ]
timed a b (Memᴰ.tail (Memᴰ.head p)) (Memᴰ.tail (Memᴰ.tail n)) h = elim n [ ]
timed a b (Memᴰ.tail (Memᴰ.tail m)) n h = elim m [ ]

list_jobs-unordered_example :
    list_jobs memory "acme" 20 (listing ("job-1" ∷ "job-2" ∷ []))
    ≡ list_jobs memory "acme" 20 (listing ("job-2" ∷ "job-1" ∷ []))
list_jobs-unordered_example =
    list_jobs-unordered memory "acme" ("job-1" ∷ "job-2" ∷ []) ("job-2" ∷ "job-1" ∷ []) 20
      (listing ("job-1" ∷ "job-2" ∷ [])) (listing ("job-2" ∷ "job-1" ∷ [])) (Permᴰ.swap refl refl)
      (memory.peek-store_self (Key.tenant_jobs "acme") ("job-1" ∷ "job-2" ∷ []) none two_jobs 0)
      (memory.peek-store_self (Key.tenant_jobs "acme") ("job-2" ∷ "job-1" ∷ []) none two_jobs 0)
      (λ job_id.
        jobs_kept ("job-1" ∷ "job-2" ∷ []) job_id ∙ sym (jobs_kept ("job-2" ∷ "job-1" ∷ []) job_id))
      (subst IsTimed (sym loaded) timed)
