-- ===== src/Redis.antt =====
-- The Redis server, which the program calls and does not implement: an interface of the commands in
-- use, the laws of their documentation, and `RedisClient.rate_limit` (platform/fmp/core/redis.py).
mod Interface
pub mod Memory
pub use Interface.*
use fuel_monitoring.Prelude.{ℕ, ◌-◌, ◌*◌, ◌+◌, Bool, true, false, leb, if◌then◌else◌}

-- `RedisClient.rate_limit`: the sliding window over a sorted set of call times in milliseconds.
-- The first result is `allowed`, the second `remaining_before_increment`.
module _ {K V : Type 0} (r : Redis K V) where
  unfoldable pub rate_limit :
      (now_ms : ℕ) → K → (limit window_seconds : ℕ) → r.Store → (Bool × ℕ) × r.Store
  rate_limit now_ms key limit window_seconds s =
      let s1 = r.zremrangebyscore key 0 (now_ms - window_seconds * 1000) s in
      let count = r.zcard key s1 in
      if leb limit count
      then ((false, limit - count), s1)
      else ((true, limit - count - 1), r.expire key window_seconds (r.zadd key now_ms now_ms s1))
