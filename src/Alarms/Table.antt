-- ===== src/Alarms/Table.antt =====
-- The alarm rows (`Alarm` of platform/fmp/models/tank.py) and the query for a live one.
use fuel_monitoring.Prelude.{
  ℕ, Bool, true, false, ◌&&◌, Option, none, some, List, [], ◌∷◌, Text, ltb, ◌==◌, if◌then◌else◌,
}
use fuel_monitoring.Alarms.Rules.{AlarmType, Severity, Message, RuleType, AlarmCandidate, type_eq}

pub data AlarmState : Type 0 where
  active acknowledged escalated resolved : AlarmState

-- What the text of a resolution is made of.
pub data Resolution : Type 0 where
  back_within : (level : ℕ) → Resolution
  cleared : RuleType → (value threshold hysteresis : ℕ) → Resolution
  -- by hand: a message, or the name of the user
  by_hand by_user : Text → Resolution

pub record Alarm : Type 0 where
  pub id : ℕ
  pub tank_id : ℕ
  pub timestamp : ℕ
  pub type : AlarmType
  pub level : Severity
  pub message : Message
  pub value : ℕ
  pub state : AlarmState
  pub resolved_at : Option ℕ
  pub resolved_message : Option Resolution
  pub acknowledged : Bool
  pub acknowledged_by : Option ℕ
  pub acknowledged_at : Option ℕ

-- `Alarm.state.in_(("active", "acknowledged", "escalated"))`
abbrev pub is_live : AlarmState → Bool
is_live resolved = false
is_live _ = true

abbrev pub is_live_of : ℕ → AlarmType → Alarm → Bool
is_live_of tank_id type a = a.tank_id == tank_id && (type_eq a.type type && is_live a.state)

abbrev later : Alarm → Option Alarm → Alarm
later a none = a
later a (some b) = if ltb a.timestamp b.timestamp then b else a

-- The live row of a tank and a type with the latest timestamp.
unfoldable pub newest_live : ℕ → AlarmType → List Alarm → Option Alarm
newest_live tank_id type [] = none
newest_live tank_id type (a ∷ rows) =
    let rest = newest_live tank_id type rows in
    if is_live_of tank_id type a then some (later a rest) else rest

-- The columns that a resolution sets.
abbrev pub resolve : ℕ → Resolution → Alarm → Alarm
resolve now why a = record a {
  state = resolved;
  resolved_at = some now;
  resolved_message = some why;
}

-- The `UPDATE ... WHERE id = :id` for a row that was changed.
unfoldable pub update_alarm : ℕ → (Alarm → Alarm) → List Alarm → List Alarm
update_alarm id set [] = []
update_alarm id set (a ∷ rows) = (if a.id == id then set a else a) ∷ update_alarm id set rows

-- `session.add(Alarm(...))` for a candidate
abbrev pub new_alarm : (id tank_id at : ℕ) → AlarmCandidate → Alarm
new_alarm id tank_id at c = record {
  id = id;
  tank_id = tank_id;
  timestamp = at;
  type = c.type;
  level = c.level;
  message = c.message;
  value = c.value;
  state = active;
  resolved_at = none;
  resolved_message = none;
  acknowledged = false;
  acknowledged_by = none;
  acknowledged_at = none;
}
