-- ===== src/Idempotency/Tests.antt =====
-- Retries at concrete inputs, on a server in memory.
use multiagent_platform_v.Prelude.{false, none, some, ◌≡◌}
use multiagent_platform_v.Documents.{Response}
use multiagent_platform_v.Redis.Memory.{empty, memory}
use multiagent_platform_v.Idempotency.{check_idempotency, replayed, store_idempotency}
use multiagent_platform_v.Idempotency.Replay.{check-store}

abbrev response : Response
response = record {
  job_id = "job-1";
  queue = "light";
  rate_limit = none;
  idempotent_replay = false;
}

replayed_later :
    check_idempotency memory "req-1" "acme"
      (memory.elapse 60 (store_idempotency memory "req-1" "acme" response empty))
    ≡ some (replayed response)
replayed_later = check-store memory "req-1" "acme" response 60 empty
