-- ===== src/JobLocking.antt =====
-- core/job_locking.py. The asynchronous and the synchronous functions send the same commands.
pub mod Exclusion
mod Tests
use multiagent_platform_v.Prelude.{Bool, String, ℕ}
use multiagent_platform_v.Redis.{Key, Redis}
use multiagent_platform_v.Redis.Commands.{exists, set_nx}

-- LOCK_TTL

module _ (R : Redis) (lock_ttl : ℕ) where
  -- whether the lock was acquired
  unfoldable pub acquire_job_lock : String → R.Db → Bool × R.Db
  unfolding set_nx
  acquire_job_lock job_id s = set_nx R (Key.job_lock job_id) lock_ttl "locked" s

  unfoldable pub release_job_lock : String → R.Db → R.Db
  release_job_lock job_id s = R.delete (Key.job_lock job_id) s

  unfoldable pub is_job_locked : String → R.Db → Bool
  is_job_locked job_id s = exists R (Key.job_lock job_id) s
