-- ===== src/SupplyChain/Service.antt =====
-- The task of worker.py with the analysis of the supply chain that it runs.
use multiagent_platform_v.Prelude.{Option, String, if◌then◌else◌, ltb, none, some, ℕ, ◌≡◌, ◌⊎◌}
use multiagent_platform_v.Documents.{JobStatus}
use multiagent_platform_v.State.{UniversalState}
use multiagent_platform_v.Redis.{Key, Redis}
use multiagent_platform_v.Hitl.{HitlSettings}
use multiagent_platform_v.Worker.{
  Ending, Task, TaskResult, finished, gave_up, raised, retrying, returned, soft_time_limit,
}
use multiagent_platform_v.Worker.Endings.{HasStatus, dead_letters, failure_of, result_of, status_of}
use multiagent_platform_v.SupplyChain.World.{World}
use multiagent_platform_v.SupplyChain.Orchestrator.{
  Cut, escaped, initial_state, run_analysis, run_graph, time_limit,
}
use multiagent_platform_v.SupplyChain.Pending.{IsDone, IsFailed, IsWaiting}
use multiagent_platform_v.Worker.Outcome.{started}
use multiagent_platform_v.SupplyChain.Frame.{IsApart, IsCutApart}

module _ (R : Redis) (world : World R) (settings : HitlSettings) (request_id : String)
    (lock_ttl : ℕ) (task : Task) (retries now : ℕ) (cut : Option (Cut × (R.Db → R.Db))) where
  abbrev analysis : R.Db → Ending × R.Db
  analysis =
      run_analysis R world settings request_id now cut task.tenant_id "supply_chain" task.input_data

  abbrev pub analysed : R.Db → UniversalState × R.Db
  analysed =
      run_graph R world settings request_id now
        (initial_state task.tenant_id "supply_chain" task.input_data)

  -- what ends the analysis
  abbrev ended : Option (Cut × (R.Db → R.Db)) → UniversalState → Ending
  ended none result = returned result
  ended (some (time_limit, left)) result = soft_time_limit
  ended (some (escaped reason, left)) result = raised reason

  -- how the analysis ended is what the job's status says
  abbrev pub Tells : (tenant : String) → UniversalState → R.Db → R.Db → Type 0
  Tells tenant result s t =
      (IsFailed result × HasStatus R task tenant JobStatus.error t)
      ⊎ ((IsDone R settings request_id result × HasStatus R task tenant JobStatus.done t)
          ⊎ (IsWaiting R settings request_id result s
              × HasStatus R task tenant JobStatus.pending_human t))

  abbrev pub begun : R.Db → R.Db
  begun s = started R settings lock_ttl task retries now analysis s

  -- what an analysis that ended in this way makes of the task, its job and the dead letters
  abbrev pub Closes : (tenant : String) → Ending → TaskResult → (s t : R.Db) → Type 0
  Closes tenant ending result s t =
      (result ≡ result_of retries ending)
      × HasStatus R task tenant (status_of ending) t
      × (R.peek t Key.dlq 0 ≡ dead_letters task now (failure_of ending) (R.peek s Key.dlq 0))

  -- the result, the job's status and the dead letters, by what cuts the analysis off: nothing, the
  -- soft time limit, or an exception
  abbrev pub Ends :
      (tenant : String) → Option (Cut × (R.Db → R.Db)) → TaskResult → (s t : R.Db) → Type 0
  Ends tenant none result s t =
      let (state, s') = analysed (begun s) in
      (result ≡ finished) × Tells tenant state s' t × (R.peek t Key.dlq 0 ≡ R.peek s Key.dlq 0)
  Ends tenant (some (time_limit, left)) result s t =
      (result ≡ finished)
      × HasStatus R task tenant JobStatus.error t
      × (R.peek t Key.dlq 0
          ≡ dead_letters task now (some "Job timeout after 5 minutes") (R.peek s Key.dlq 0))
  Ends tenant (some (escaped reason, left)) result s t =
      (result ≡ (if ltb retries 2 then retrying else gave_up))
      × HasStatus R task tenant JobStatus.error t
      × (R.peek t Key.dlq 0 ≡ dead_letters task now (some reason) (R.peek s Key.dlq 0))

  -- the weather service's call, the breaker's circuit and an analysis that is cut off are apart from
  -- the keys that the worker keeps for itself
  pub record IsSeparate : Type 0 where
    pub job : IsApart R world now (Key.job task.job_id)
    pub dead : IsApart R world now Key.dlq
    pub all : IsApart R world now Key.queue_global
    pub own : IsApart R world now (Key.queue_tenant task.tenant_id)
    pub job_kept : IsCutApart R (Key.job task.job_id) cut
    pub dead_kept : IsCutApart R Key.dlq cut
    pub all_kept : IsCutApart R Key.queue_global cut
    pub own_kept : IsCutApart R (Key.queue_tenant task.tenant_id) cut
