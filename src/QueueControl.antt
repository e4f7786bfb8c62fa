-- ===== src/QueueControl.antt =====
-- core/queue_control.py: the depth counters, the admission test and the routing of jobs.
pub mod Counters
pub mod Admission
mod Tests
use multiagent_platform_v.Prelude.{
  Bool, List, String, [], get_or, if◌then◌else◌, leb_ℤ, ltb, ltb_ℤ, pos, pos_part, ℕ, ℤ, ◌*◌, ◌∷◌,
}
use multiagent_platform_v.Redis.{Key, Redis}
use multiagent_platform_v.Redis.Commands.{contains, decremented, get, incremented}

abbrev pub heavy_sectors : List String
heavy_sectors = "legal" ∷ "real_estate" ∷ []

pub get_queue_for_sector : String → String
get_queue_for_sector sector = if contains sector heavy_sectors then "heavy" else "light"

-- the dict that `check_backpressure` returns; a refusal says which limit was met
pub data Backpressure : Type 0 where
  at_capacity : (global_depth : ℤ) → (retry_after : ℕ) → Backpressure
  queue_full : (tenant_depth : ℤ) → (retry_after : ℕ) → Backpressure
  allowed : (global_depth tenant_depth : ℤ) → Backpressure

pub record QueueStats : Type 0 where
  pub global_depth : ℤ
  pub global_capacity : ℕ
  pub healthy : Bool

module _ (R : Redis) where
  -- `int(get(key) or 0)`
  abbrev pub get_global_queue_depth : R.Db → ℤ
  get_global_queue_depth s = get_or (get R Key.queue_global s) (pos 0)

  abbrev pub get_tenant_queue_depth : String → R.Db → ℤ
  get_tenant_queue_depth tenant s = get_or (get R (Key.queue_tenant tenant) s) (pos 0)

  -- MAX_QUEUE_SIZE and MAX_TENANT_QUEUE
  unfoldable pub check_backpressure :
      (max_queue_size max_tenant_queue : ℕ) → String → R.Db → Backpressure
  check_backpressure max_queue_size max_tenant_queue tenant s =
      let global_depth = get_global_queue_depth s in
      let tenant_depth = get_tenant_queue_depth tenant s in
      if leb_ℤ (pos max_queue_size) global_depth
      then at_capacity global_depth 60
      else if leb_ℤ (pos max_tenant_queue) tenant_depth
      then queue_full tenant_depth 30
      else allowed global_depth tenant_depth

  pub increment_queue : String → R.Db → R.Db
  increment_queue tenant s =
      let s1 = R.update Key.queue_global incremented s in
      let s2 = R.update (Key.queue_tenant tenant) incremented s1 in
      R.expire (Key.queue_tenant tenant) 3600 s2

  -- the DECR that follows a read: it is sent if the value read was positive
  pub lower_global : (seen : ℤ) → R.Db → R.Db
  lower_global seen s = if ltb_ℤ (pos 0) seen then R.update Key.queue_global decremented s else s

  pub lower_tenant : String → (seen : ℤ) → R.Db → R.Db
  lower_tenant tenant seen s =
      if ltb_ℤ (pos 0) seen then R.update (Key.queue_tenant tenant) decremented s else s

  pub decrement_queue : String → R.Db → R.Db
  unfolding lower_global lower_tenant
  decrement_queue tenant s =
      let s1 = lower_global (get_global_queue_depth s) s in
      lower_tenant tenant (get_tenant_queue_depth tenant s1) s1

  -- "healthy" below four fifths of the capacity
  pub get_queue_stats : (max_queue_size : ℕ) → R.Db → QueueStats
  get_queue_stats max_queue_size s =
      let depth = get_global_queue_depth s in
      record {
        global_depth = depth;
        global_capacity = max_queue_size;
        healthy = ltb (pos_part depth * 10) (max_queue_size * 8);
      }
