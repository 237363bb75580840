-- ===== src/Stale/Alarm.antt =====
-- `_raise_or_clear`: the alarm "communication_lost" of a tank, with its key in Redis. The rows are the
-- ones of this type.
use fuel_monitoring.Prelude.{
  ℕ, ◌+◌, Bool, true, false, ◌&&◌, Option, none, some, List, [], ◌∷◌, Text, codes, ltb, ◌==◌,
  if◌then◌else◌,
}
use fuel_monitoring.Redis.{Redis}

pub data AlarmState : Type 0 where
  active acknowledged escalated resolved : AlarmState

-- What the formatted messages say.
pub data Message : Type 0 where
  no_telemetry_for : (minutes : ℕ) → Message
  reported_again_after : (seconds : ℕ) → Message

pub record LostAlarm : Type 0 where
  pub id : ℕ
  pub tank_id : ℕ
  pub timestamp : ℕ
  pub message : Message
  pub state : AlarmState
  pub resolved_at : Option ℕ
  pub resolved_message : Option Message

-- `LIVE_STATE_ALARMS`
abbrev pub is_live : AlarmState → Bool
is_live resolved = false
is_live _ = true

abbrev later : LostAlarm → Option LostAlarm → LostAlarm
later a none = a
later a (some b) = if ltb a.timestamp b.timestamp then b else a

-- the live row of the tank with the latest timestamp
unfoldable pub newest_live : ℕ → List LostAlarm → Option LostAlarm
newest_live tank [] = none
newest_live tank (a ∷ rows) =
    let rest = newest_live tank rows in
    if a.tank_id == tank && is_live a.state then some (later a rest) else rest

abbrev pub resolve : ℕ → Message → LostAlarm → LostAlarm
resolve now m a = record a { state = resolved; resolved_at = some now; resolved_message = some m }

unfoldable pub update_lost : ℕ → (LostAlarm → LostAlarm) → List LostAlarm → List LostAlarm
update_lost id set [] = []
update_lost id set (a ∷ rows) = (if a.id == id then set a else a) ∷ update_lost id set rows

-- 'raised', 'resolved', None
pub data Outcome : Type 0 where
  was_raised was_resolved nothing : Outcome

pub record AlarmWorld (Store : Type 0) : Type 0 where
  pub store : Store
  pub rows : List LostAlarm
  pub next_id : ℕ

-- the member of the set under a key
abbrev pub one : Text
one = codes "1"

module _ {V : Type 0} (r : Redis ℕ V) where
  abbrev pub is_open : ℕ → AlarmWorld r.Store → Bool
  is_open tank w = r.sismember tank one w.store

  abbrev pub clear_row :
      ℕ → Message → Option LostAlarm → AlarmWorld r.Store → Outcome × AlarmWorld r.Store
  clear_row now m none w = (nothing, w)
  clear_row now m (some a) w =
      (was_resolved, record w { rows = update_lost a.id (resolve now m) w.rows })

  -- the branch of a device that reports, when its key is open
  unfoldable pub clear_alarm : ℕ → ℕ → Message → AlarmWorld r.Store → Outcome × AlarmWorld r.Store
  clear_alarm now tank m w =
      clear_row now m (newest_live tank w.rows) (record w { store = r.srem tank one w.store })

  -- the branch of a silent device, when its key is closed
  unfoldable pub raise_alarm : ℕ → ℕ → Message → AlarmWorld r.Store → Outcome × AlarmWorld r.Store
  raise_alarm now tank m w = (
    was_raised,
    record {
      store = r.sadd tank one w.store;
      rows =
          (record {
            id = w.next_id;
            tank_id = tank;
            timestamp = now;
            message = m;
            state = active;
            resolved_at = none;
            resolved_message = none;
          })
          ∷ w.rows;
      next_id = w.next_id + 1;
    },
  )

  -- `_raise_or_clear`
  unfoldable pub raise_or_clear :
      (now tank : ℕ) (has_reported : Bool)
      → Message
      → AlarmWorld r.Store
      → Outcome × AlarmWorld r.Store
  raise_or_clear now tank true m w =
      if is_open tank w then clear_alarm now tank m w else (nothing, w)
  raise_or_clear now tank false m w =
      if is_open tank w then (nothing, w) else raise_alarm now tank m w
