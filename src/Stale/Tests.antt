-- ===== src/Stale/Tests.antt =====
-- A small fleet, and the theorems at it.
use fuel_monitoring.Prelude.{ℕ, ◌≡◌, Bool, true, false, none, some, List, [], ◌∷◌, All, arith, ◌==◌}
use fuel_monitoring.Redis.{Redis, RedisLaws}
use fuel_monitoring.Redis.Memory.{Memory, memory_redis, memory_laws}
use fuel_monitoring.Stale.Alarm.{AlarmWorld}
use fuel_monitoring.Stale.Devices.{Tank, online, offline, sweep_tanks, no_tally}
use fuel_monitoring.Stale.Laws.{IsJudged, AreDistinct, sweep_tanks-IsJudged}

abbrev same_id : ℕ → ℕ → Bool
same_id a b = a == b

same_id_sound : (a b : ℕ) → same_id a b ≡ true → a ≡ b
same_id_sound a b h = ground arith

same_id_refl : (a : ℕ) → same_id a a ≡ true
same_id_refl a = ground arith

abbrev server : Redis ℕ Unit
server = memory_redis same_id

laws : RedisLaws server
laws = memory_laws same_id same_id_sound same_id_refl

-- The first tank has fallen silent, the second reports.
abbrev tanks : List Tank
tanks =
    record { id = 1; is_deleted = false; last_connection = some 400; connection_status = online }
    ∷ record { id = 2; is_deleted = false; last_connection = some 990; connection_status = offline }
    ∷ []

abbrev quiet : AlarmWorld (Memory ℕ Unit)
quiet = record {
  store = record { members = λ k m. false; values = λ k. none; scores = λ k. [] };
  rows = [];
  next_id = 1;
}

tanks-AreDistinct : AreDistinct server laws 1000 tanks
tanks-AreDistinct = ((λ e. omega arith, tt), (tt, tt))

sweep_tanks-IsJudged_example :
    let (after, (_, w')) = sweep_tanks server 1000 tanks no_tally quiet in
    All (IsJudged server laws 1000 w') after
sweep_tanks-IsJudged_example =
    sweep_tanks-IsJudged server laws 1000 tanks no_tally quiet tanks-AreDistinct
