-- ===== src/JobLocking/Tests.antt =====
-- Workers at concrete inputs, on a server in memory.
use multiagent_platform_v.Prelude.{[], arith, length, refl, ◌≤◌}
use multiagent_platform_v.Redis.Memory.{empty, memory}
use multiagent_platform_v.JobLocking.{acquire_job_lock}
use multiagent_platform_v.JobLocking.Exclusion.{Run, Run-exclusive, Step, System, enter}

abbrev start : System memory 400 360 "job-1"
start = record { db = empty; holders = [] }

abbrev after_one : System memory 400 360 "job-1"
after_one = enter memory 400 360 "job-1" (acquire_job_lock memory 400 "job-1" empty) []

abbrev after_two : System memory 400 360 "job-1"
after_two =
    enter memory 400 360 "job-1" (acquire_job_lock memory 400 "job-1" after_one.db)
      after_one.holders

Run-exclusive_example : length after_two.holders ≤ 1
Run-exclusive_example = Run-exclusive memory 400 360 "job-1" {s = start} (omega arith) refl (
    Run.next {t = after_one} (Step.attempt refl)
      (Run.next (Step.attempt refl) (Run.stop after_two)))
