-- ===== src/QueueControl/Admission.antt =====
-- The admission test together with the counters, and two calls of `decrement_queue` that overlap.
use multiagent_platform_v.Prelude.{
  List, String, [], arith, get_or, neg_part, negsuc, pos, pos_part, ℕ, ℤ, ◌+◌, ◌∷◌, ◌≡◌, ◌≤◌,
}
use multiagent_platform_v.Redis.{Key, Redis}
use multiagent_platform_v.Redis.Commands.{decremented, incremented}
use multiagent_platform_v.QueueControl.{
  Backpressure, allowed, check_backpressure, decrement_queue, get_global_queue_depth,
  get_tenant_queue_depth, increment_queue, lower_global,
}
use multiagent_platform_v.QueueControl.Counters.{decrement_queue_depths, increment_queue_depths}

-- a request that is admitted or refused, a job that ends, or seconds that pass

pub data Event : Type 0 where
  request finish : (tenant : String) → Event
  pass : ℕ → Event

module _ (R : Redis) (max_queue_size max_tenant_queue : ℕ) where
  -- as POST /analyze does it: the counters go up only behind an `allowed`
  abbrev pub admit : Backpressure → String → R.Db → R.Db
  admit (allowed _ _) tenant s = increment_queue R tenant s
  admit _ tenant s = s

  pub handle : Event → R.Db → R.Db
  handle (request tenant) s =
      admit (check_backpressure R max_queue_size max_tenant_queue tenant s) tenant s
  handle (finish tenant) s = decrement_queue R tenant s
  handle (pass n) s = R.elapse n s

  pub handle_all : List Event → R.Db → R.Db
  handle_all [] s = s
  handle_all (e ∷ es) s = handle_all es (handle e s)

  abbrev pub InLimits : ℤ → Type 0
  InLimits n = (neg_part n ≡ 0) × (pos_part n ≤ max_queue_size)

  -- at every later moment too
  abbrev pub IsBounded : R.Db → Type 0
  IsBounded s = (d : ℕ) → InLimits (get_or (R.peek s Key.queue_global d) (pos 0))

  admit-IsBounded :
      (tenant : String) (s : R.Db)
      → IsBounded s
      → IsBounded (admit (check_backpressure R max_queue_size max_tenant_queue tenant s) tenant s)
  unfolding check_backpressure increment_queue
  admit-IsBounded tenant s h d =
      let s1 = R.update Key.queue_global incremented s in
      let s2 = R.update (Key.queue_tenant tenant) incremented s1 in
      ground (
        arith,
        h 0,
        h d,
        R.peek-update_self Key.queue_global incremented s d,
        R.peek-update_ne (Key.queue_tenant tenant) Key.queue_global incremented s1 d,
        R.peek-expire_ne (Key.queue_tenant tenant) Key.queue_global 3600 s2 d,
      )

  decrement_queue-IsBounded :
      (tenant : String) (s : R.Db) → IsBounded s → IsBounded (decrement_queue R tenant s)
  unfolding decrement_queue
  decrement_queue-IsBounded tenant s h d =
      let s1 = lower_global R (get_global_queue_depth R s) s in
      ground (
        arith,
        h 0,
        h d,
        R.peek-update_self Key.queue_global decremented s d,
        R.peek-update_ne (Key.queue_tenant tenant) Key.queue_global decremented s1 d,
      )

  handle-IsBounded : (e : Event) (s : R.Db) → IsBounded s → IsBounded (handle e s)
  unfolding handle
  handle-IsBounded (request tenant) s h = admit-IsBounded tenant s h
  handle-IsBounded (finish tenant) s h = decrement_queue-IsBounded tenant s h
  handle-IsBounded (pass n) s h = λ d. rw R.peek-elapse (h (n + d))

  -- From a global depth between 0 and the limit, requests, finished jobs and the passing of time,
  -- one after another in any order, keep it there, at every later moment.
  pub handle_all-IsBounded :
      (es : List Event) (s : R.Db) → IsBounded s → IsBounded (handle_all es s)
  unfolding handle_all
  handle_all-IsBounded [] s h = h
  handle_all-IsBounded (e ∷ es) s h = handle_all-IsBounded es (handle e s) (handle-IsBounded e s h)

module _ (R : Redis) where
  -- Two workers end a job at once: both read the global depth, then both send their DECR.
  pub decrement_overlapping : R.Db → R.Db
  decrement_overlapping s =
      let seen = get_global_queue_depth R s in lower_global R seen (lower_global R seen s)

  -- If one job is counted, two overlapping decrements take the global depth to -1, although each
  -- has tested that it is positive.
  pub decrement_overlapping_negative :
      (s : R.Db)
      → get_global_queue_depth R s ≡ pos 1
      → get_global_queue_depth R (decrement_overlapping s) ≡ negsuc 0
  unfolding decrement_overlapping lower_global
  decrement_overlapping_negative s h =
      let s1 = R.update Key.queue_global decremented s in
      ground (
        arith,
        R.peek-update_self Key.queue_global decremented s 0,
        R.peek-update_self Key.queue_global decremented s1 0,
      )

  -- A job that is added and ends leaves both depths as they were, where neither was negative.
  pub decrement-increment :
      (tenant : String) (s : R.Db)
      → neg_part (get_global_queue_depth R s) ≡ 0
      → neg_part (get_tenant_queue_depth R tenant s) ≡ 0
      → let s' = decrement_queue R tenant (increment_queue R tenant s) in
        (get_global_queue_depth R s' ≡ get_global_queue_depth R s)
        × (get_tenant_queue_depth R tenant s' ≡ get_tenant_queue_depth R tenant s)
  decrement-increment tenant s g t = ground (
    arith,
    increment_queue_depths R tenant s,
    decrement_queue_depths R tenant (increment_queue R tenant s),
  )
