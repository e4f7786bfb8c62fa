-- ===== src/Api/Tests.antt =====
-- The endpoints at concrete inputs, on a server in memory.
use multiagent_platform_v.Documents.{Job, JobStatus}
use multiagent_platform_v.Memory.Safety.{MemorySettings}
use multiagent_platform_v.Api.Outcomes.{OutcomeRequest, record_outcome}
use multiagent_platform_v.Api.Webhooks.{
  CallsBack, Parser, analyze-CallsBack, request_of, validate_webhook_url,
}
use multiagent_platform_v.Idempotency.{check_idempotency, replayed}
use multiagent_platform_v.Jobs.{get_job, job_ttl}
use multiagent_platform_v.Rbac.{Tenant, has_permission}
use multiagent_platform_v.Api.{
  AnalysisRequest, Limits, accept, admit, analyze, get_job_status, response_of, retry_job,
}
use multiagent_platform_v.Api.Replays.{analyze-refused, analyze-replayed, rated}
use multiagent_platform_v.Api.Ownership.{foreign_job-not_found}
use multiagent_platform_v.RateLimiting.{check_rate_limit, limit_of, unlimited}
use multiagent_platform_v.Prelude.{
  All, if◌then◌else◌, starts_with, ◌==◌, String, [], arith, eq_iff, none, pos, refl, some, true,
  ◌≡◌,
}
use multiagent_platform_v.State.{InputData}
use multiagent_platform_v.Http.{http_error, respond}
use multiagent_platform_v.Redis.{Key}
use multiagent_platform_v.Redis.Memory.{empty, memory, peek-empty}
use multiagent_platform_v.QueueControl.{check_backpressure}

abbrev order : InputData
order = record {
  location = some "Tunis, Tunisia";
  product_id = some "HARISSA-140G";
  webhook_url = none;
}

abbrev request : AnalysisRequest
request = record { input_data = order; webhook_url = none }

abbrev acme : Tenant
acme = record {
  tenant_id = "acme";
  sector = "supply_chain";
  plan = some "enterprise";
  role = some "analyst";
  user_id = none;
}

abbrev globex : Tenant
globex = record acme { tenant_id = "globex" }

-- no limit on the rate, ten jobs in all
abbrev limits : Limits
limits = record {
  rates = record { starter = 10; pro = 60; enterprise = 999999 };
  max_queue_size = 10;
  max_tenant_queue = 5;
}

-- no job is admitted
abbrev closed : Limits
closed = record limits { max_queue_size = 0 }

not_seen : check_idempotency memory "key-1" "acme" empty ≡ none
unfolding check_idempotency
not_seen = ground (arith, peek-empty (Key.idempotency "acme:key-1") 0)

no_jobs : (k : Key) → memory.peek empty k 0 ≡ none
no_jobs k = peek-empty k 0

first :
    (analyze memory limits acme request "key-1" "job-1" 100 empty).0
    ≡ respond (response_of "job-1" "supply_chain" unlimited)
unfolding analyze admit check_rate_limit limit_of check_backpressure accept
first = rw (analyze, not_seen, no_jobs Key.queue_global, no_jobs (Key.queue_tenant "acme")) refl

refused : (analyze memory closed acme request "key-1" "job-1" 100 empty).0 ≡ http_error 503
unfolding analyze admit check_rate_limit limit_of check_backpressure
refused = rw (analyze, not_seen, no_jobs Key.queue_global) refl

analyze-refused_example :
    ((analyze memory closed acme request "key-1" "job-1" 100 empty).1 ≡ [])
    × ((analyze memory closed acme request "key-1" "job-1" 100 empty).2
        ≡ (rated memory closed acme request "key-1" "job-1" 100 empty).1)
analyze-refused_example =
    analyze-refused memory closed acme request "key-1" "job-1" 100 503 empty refused

analyze-replayed_example :
    let t = memory.elapse 60 (analyze memory limits acme request "key-1" "job-1" 100 empty).2 in
    analyze memory limits acme request "key-1" "job-2" 160 t
    ≡ (respond (replayed (response_of "job-1" "supply_chain" unlimited)), [], t)
analyze-replayed_example =
    analyze-replayed memory limits acme request "key-1" "job-1" 100 empty
      (response_of "job-1" "supply_chain" unlimited) 60 request "job-2" 160
      (ground (arith, eq_iff "key-1" "")) (omega arith) not_seen first

abbrev failed_job : Job
failed_job = record {
  job_id = "job-1";
  tenant_id = "acme";
  sector = "supply_chain";
  input_data = order;
  status = JobStatus.error;
  created_at = 100;
  updated_at = 130;
  result = none;
  failure = some "no route to host";
  outcome = none;
}

abbrev one_job : memory.Db
one_job = memory.store (Key.job "job-1") failed_job (some job_ttl) empty

found : get_job memory "job-1" one_job ≡ some failed_job
found = memory.peek-store_self (Key.job "job-1") failed_job (some job_ttl) empty 0

may_retry :
    (tenant_id : String)
    → has_permission (record acme { tenant_id = tenant_id }) "retry_jobs" ≡ some true
unfolding has_permission
may_retry tenant_id = refl

abbrev defaults : MemorySettings
defaults = record { accuracy_floor = 400; anomaly_threshold = 3000 }

abbrev sold_900 : OutcomeRequest
sold_900 = record { actual_demand = pos 900; action_taken = true; notes = none }

foreign_job-not_found_example :
    (get_job_status memory globex "job-1" one_job ≡ get_job_status memory globex "job-1" empty)
    × (record_outcome memory defaults globex "job-1" sold_900 200 one_job
        ≡ ((record_outcome memory defaults globex "job-1" sold_900 200 empty).0, one_job))
    × (retry_job memory globex "job-1" 200 one_job
        ≡ ((retry_job memory globex "job-1" 200 empty).0, [], one_job))
foreign_job-not_found_example =
    foreign_job-not_found memory globex "job-1" 200 one_job failed_job defaults sold_900 empty found
      (ground (arith, eq_iff "acme" "globex")) (peek-empty (Key.job "job-1") 0)

-- what `urlparse` finds in four addresses
abbrev parse : Parser
parse url =
    if url == "https://hooks.acme.example/done"
    then some ("https", some "hooks.acme.example")
    else if url == "http://127.0.0.1:6379/"
    then some ("http", some "127.0.0.1")
    else if url == "http://localhost:6379/"
    then some ("http", some "localhost")
    else if url == "https://fcbarcelona.example/"
    then some ("https", some "fcbarcelona.example")
    else none

-- a loopback address is refused by its number, not by its name; a public host by its first letters
hosts :
    (validate_webhook_url parse "http://127.0.0.1:6379/" ≡ none)
    × (validate_webhook_url parse "http://localhost:6379/" ≡ some "http://localhost:6379/")
    × (validate_webhook_url parse "https://fcbarcelona.example/" ≡ none)
unfolding validate_webhook_url starts_with
hosts = (refl, refl, refl)

abbrev hooked : AnalysisRequest
hooked = record { input_data = order; webhook_url = some "https://hooks.acme.example/done" }

hooked_valid : request_of parse order (some "https://hooks.acme.example/done") ≡ some hooked
unfolding request_of validate_webhook_url starts_with
hooked_valid = refl

analyze-CallsBack_example :
    All (CallsBack parse order) (analyze memory limits acme hooked "key-1" "job-1" 100 empty).1
analyze-CallsBack_example =
    analyze-CallsBack memory limits acme "key-1" "job-1" 100 parse order
      (some "https://hooks.acme.example/done") hooked empty hooked_valid
