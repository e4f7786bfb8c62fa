-- ===== src/QueueControl/Counters.antt =====
-- What the counter operations do to the two depths.
use multiagent_platform_v.Prelude.{
  String, arith, if◌then◌else◌, ltb_ℤ, pos, pred_ℤ, some, suc, succ_ℤ, ℕ, ℤ, ◌≡◌, ◌≢◌,
}
use multiagent_platform_v.Redis.{Key, Redis}
use multiagent_platform_v.Redis.Commands.{decremented, incremented}
use multiagent_platform_v.QueueControl.{
  decrement_queue, get_global_queue_depth, get_tenant_queue_depth, increment_queue, lower_global,
}

-- `n + 1` and the guarded `n - 1` of a counter

abbrev pub lowered : ℤ → ℤ
lowered n = if ltb_ℤ (pos 0) n then pred_ℤ n else n

module _ (R : Redis) (tenant : String) where
  -- A job that is added is counted once globally and once for its tenant.
  pub increment_queue_depths :
      (s : R.Db)
      → (get_global_queue_depth R (increment_queue R tenant s)
          ≡ succ_ℤ (get_global_queue_depth R s))
        × (get_tenant_queue_depth R tenant (increment_queue R tenant s)
            ≡ succ_ℤ (get_tenant_queue_depth R tenant s))
  unfolding increment_queue
  increment_queue_depths s =
      let s1 = R.update Key.queue_global incremented s in
      let s2 = R.update (Key.queue_tenant tenant) incremented s1 in
      ground (
        arith,
        R.peek-update_self Key.queue_global incremented s 0,
        R.peek-update_ne (Key.queue_tenant tenant) Key.queue_global incremented s1 0,
        R.peek-update_ne Key.queue_global (Key.queue_tenant tenant) incremented s 0,
        R.peek-update_self (Key.queue_tenant tenant) incremented s1 0,
        R.peek-expire_ne (Key.queue_tenant tenant) Key.queue_global 3600 s2 0,
        R.peek-expire_self (Key.queue_tenant tenant) 3600 s2 0,
      )

  pub decrement_queue_depths :
      (s : R.Db)
      → (get_global_queue_depth R (decrement_queue R tenant s)
          ≡ lowered (get_global_queue_depth R s))
        × (get_tenant_queue_depth R tenant (decrement_queue R tenant s)
            ≡ lowered (get_tenant_queue_depth R tenant s))
  unfolding decrement_queue
  decrement_queue_depths s =
      let s1 = lower_global R (get_global_queue_depth R s) s in
      ground (
        arith,
        R.peek-update_self Key.queue_global decremented s 0,
        R.peek-update_ne (Key.queue_tenant tenant) Key.queue_global decremented s1 0,
        R.peek-update_ne Key.queue_global (Key.queue_tenant tenant) decremented s 0,
        R.peek-update_self (Key.queue_tenant tenant) decremented s1 0,
      )

  -- no key but the two depths is written
  pub decrement_queue-other :
      (k : Key) (d : ℕ) (s : R.Db)
      → Key.queue_global ≢ k
      → Key.queue_tenant tenant ≢ k
      → R.peek (decrement_queue R tenant s) k d ≡ R.peek s k d
  unfolding decrement_queue
  decrement_queue-other k d s not_global not_tenant =
      let s1 = lower_global R (get_global_queue_depth R s) s in
      ground (
        arith,
        R.peek-update_ne Key.queue_global k decremented s d not_global,
        R.peek-update_ne (Key.queue_tenant tenant) k decremented s1 d not_tenant,
      )

  -- a job that ends, where the depth never expires
  pub decrement_queue-lasting :
      (n : ℕ) (s : R.Db)
      → ((d : ℕ) → R.peek s Key.queue_global d ≡ some (pos (suc n)))
      → (d : ℕ) → R.peek (decrement_queue R tenant s) Key.queue_global d ≡ some (pos n)
  unfolding decrement_queue
  decrement_queue-lasting n s h d =
      let s1 = lower_global R (get_global_queue_depth R s) s in
      ground (
        arith,
        h 0,
        h d,
        R.peek-update_self Key.queue_global decremented s d,
        R.peek-update_ne (Key.queue_tenant tenant) Key.queue_global decremented s1 d,
      )
