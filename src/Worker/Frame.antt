-- ===== src/Worker/Frame.antt =====
-- The keys that `process_analysis_job` writes apart from what `run_analysis` does.
use multiagent_platform_v.Prelude.{
  Bool-cases, List, Option-cases, String, if◌then◌else◌, inl, inr, none, refl, some, ℕ, ◌∙◌, ◌≡◌,
  ◌≢◌,
}
use multiagent_platform_v.Documents.{JobStatus, analysis}
use multiagent_platform_v.State.{UniversalState}
use multiagent_platform_v.Redis.{Key, Redis}
use multiagent_platform_v.Hitl.{HitlSettings}
use multiagent_platform_v.Jobs.{get_job, update_job}
use multiagent_platform_v.Jobs.Store.{update_job-other}
use multiagent_platform_v.Worker.{
  Ending, Message, Task, attempt, conclude, hitl_pending, hitl_request, is_done, push_to_dlq,
  raised, recover, returned, settle, soft_time_limit, suspend,
}

module _ (R : Redis) (settings : HitlSettings) (task : Task) (k : Key) where
  -- not the job and not its request
  pub record IsOther : Type 0 where
    pub not_job : Key.job task.job_id ≢ k
    pub not_request : Key.hitl_job task.job_id ≢ k

  -- what `k` holds is the same, now and later
  abbrev pub IsSame : R.Db → R.Db → Type 0
  IsSame s t = (d : ℕ) → R.peek t k d ≡ R.peek s k d

  pub push_to_dlq-IsSame :
      Key.dlq ≢ k
      → (reason : String) (now : ℕ) (s : R.Db) → IsSame s (push_to_dlq R task reason now s)
  unfolding push_to_dlq
  push_to_dlq-IsSame ne reason now s d =
      R.peek-update_ne Key.dlq k _ _ d ne ∙ R.peek-update_ne Key.dlq k _ s d ne

  suspend-IsSame :
      IsOther
      → (result : UniversalState) (now : ℕ) (s : R.Db)
      → IsSame s (suspend R settings task result now s).2
  unfolding suspend
  suspend-IsSame h result now s d =
      let s1 = update_job R task.job_id JobStatus.pending_human none none now s in
      let first =
        update_job-other R task.job_id JobStatus.pending_human none none now k d s h.not_job in
      elim (Option-cases (hitl_request result)) [
        | inl absent ↦ rw (suspend, absent) first
        | inr (request_id, found) ↦
            rw (suspend, found)
              (R.peek-store_ne (Key.hitl_job task.job_id) k request_id _ _ d h.not_request
                ∙ update_job-other R task.job_id JobStatus.pending_human _ none now k d s1 h.not_job
                ∙ first)
      ]

  conclude-IsSame :
      IsOther
      → (result : UniversalState) (now : ℕ) (s : R.Db) → IsSame s (conclude R task result now s).2
  unfolding conclude
  conclude-IsSame h result now s d =
      let status = if is_done result.status then JobStatus.done else JobStatus.error in
      let s1 = update_job R task.job_id status (some (analysis result)) none now s in
      let kept =
        update_job-other R task.job_id status (some (analysis result)) none now k d s h.not_job in
      elim (Option-cases (get_job R task.job_id s1)) [
        | inl gone ↦ rw (conclude, gone) kept
        | inr (job, found) ↦ rw (conclude, found) kept
      ]

  settle-IsSame :
      IsOther
      → (now : ℕ) (ending : Ending) (s : R.Db) → IsSame s (settle R settings task now ending s).2
  unfolding settle
  settle-IsSame h now (returned result) s = elim (Bool-cases (hitl_pending result)) [
    | inl p ↦ rw (settle, p) (suspend-IsSame h result now s)
    | inr p ↦ rw (settle, p) (conclude-IsSame h result now s)
  ]
  settle-IsSame h now soft_time_limit s = λ d. refl
  settle-IsSame h now (raised reason) s = λ d. refl

  pub attempt-IsSame :
      IsOther
      → (run_analysis : R.Db → Ending × R.Db) (now : ℕ) → ((s : R.Db) → IsSame s (run_analysis s).1)
      → (s : R.Db) → IsSame s (attempt R settings task run_analysis now s).2
  unfolding attempt
  attempt-IsSame h run_analysis now same s d =
      let s1 = update_job R task.job_id JobStatus.running none none now s in
      settle-IsSame h now (run_analysis s1).0 (run_analysis s1).1 d
      ∙ same s1 d
      ∙ update_job-other R task.job_id JobStatus.running none none now k d s h.not_job

  recover-IsSame :
      IsOther
      → Key.dlq ≢ k
      → (retries now : ℕ) (ending : Ending) (sent : List Message) (s : R.Db)
      → IsSame s (recover R task retries now (ending, sent, s)).2
  unfolding recover
  recover-IsSame h not_dead retries now (returned result) sent s d = refl
  recover-IsSame h not_dead retries now soft_time_limit sent s d =
      push_to_dlq-IsSame not_dead _ now _ d
      ∙ update_job-other R task.job_id JobStatus.error none _ now k d s h.not_job
  recover-IsSame h not_dead retries now (raised reason) sent s d =
      push_to_dlq-IsSame not_dead reason now _ d
      ∙ update_job-other R task.job_id JobStatus.error none _ now k d s h.not_job

  pub recover-attempt-IsSame :
      IsOther
      → Key.dlq ≢ k
      → (retries now : ℕ) (run_analysis : R.Db → Ending × R.Db)
      → ((s : R.Db) → IsSame s (run_analysis s).1)
      → (s : R.Db)
      → IsSame s (recover R task retries now (attempt R settings task run_analysis now s)).2
  recover-attempt-IsSame h not_dead retries now run_analysis same s d =
      let (ending, sent, t) = attempt R settings task run_analysis now s in
      recover-IsSame h not_dead retries now ending sent t d
      ∙ attempt-IsSame h run_analysis now same s d
