-- ===== src/Alarms/Frame.antt =====
-- What one reading does to the alarms: the raise loop, `_resolve_cleared`, and the rows and messages
-- of `IngestionPipeline.process`.
use fuel_monitoring.Prelude.{
  ℕ, ◌+◌, Bool, Option, none, some, List, [], ◌∷◌, ◌++◌, map, any, Text, codes, if◌then◌else◌,
}
use fuel_monitoring.Redis.{Redis}
use fuel_monitoring.Dispensing.Models.{round3}
use fuel_monitoring.Alarms.Rules.{
  RuleType, AlarmType, threshold, sensor_fault, warning, AlarmCandidate, Tank, threshold_of,
  level_rules, volume_rules, is_violated, evaluate_alarm_rules, type_eq, exceeds,
}
use fuel_monitoring.Alarms.Table.{
  Alarm, Resolution, back_within, cleared, newest_live, resolve, update_alarm, new_alarm,
}

-- `_open_alarm_key`: "alarm:open:", the tank, the type
abbrev pub OpenKey : Type 0
OpenKey = ℕ × AlarmType

-- `ALARM_CLEAR_HYSTERESIS_METERS` in micrometres, `ALARM_CLEAR_HYSTERESIS_LITERS` in decilitres
abbrev pub hysteresis_meters : ℕ
hysteresis_meters = 50000

abbrev pub hysteresis_liters : ℕ
hysteresis_liters = 250

-- A measured level that is higher than the tank: the level, the height and the pressure.
pub record OverRange : Type 0 where
  pub derived_level : ℕ
  pub tank_height : ℕ
  pub pressure : ℕ

-- A reading after the physics: the level in use, the volume, and the over-range fault.
pub record Reading : Type 0 where
  pub level : ℕ
  pub volume : ℕ
  pub over_range : Option OverRange

-- What is sent on `ALARMS_CHANNEL`.
pub data Event : Type 0 where
  raised : AlarmCandidate → (at : ℕ) → Event
  resolution : Alarm → (at : ℕ) → Event

pub record AlarmWorld (Store : Type 0) : Type 0 where
  pub store : Store
  pub alarms : List Alarm
  pub next_id : ℕ
  pub published : List Event

abbrev pub fault_candidate : Option OverRange → List AlarmCandidate
fault_candidate none = []
fault_candidate (some o) =
    (record {
      type = sensor_fault;
      level = warning;
      message = exceeds o.derived_level o.tank_height o.pressure;
      value = round3 o.derived_level;
    })
    ∷ []

abbrev pub candidates : Tank → Reading → List AlarmCandidate
candidates t f = evaluate_alarm_rules t f.level f.volume ++ fault_candidate f.over_range

-- One entry of `checks`: the type, the measured value, the hysteresis.
pub record Check : Type 0 where
  pub type : AlarmType
  pub value : ℕ
  pub hysteresis : ℕ

abbrev check_of : (value hysteresis : ℕ) → RuleType → Check
check_of value hysteresis r = record { type = threshold r; value = value; hysteresis = hysteresis }

abbrev pub checks : (level volume : ℕ) → List Check
checks level volume =
    (map (check_of level hysteresis_meters) level_rules
      ++ map (check_of volume hysteresis_liters) volume_rules)
    ++ (record { type = sensor_fault; value = level; hysteresis = 0 }) ∷ []

-- Why a check may resolve its alarm, and `none` when the threshold is not set or still violated.
abbrev pub cleared_rule : RuleType → Check → Option ℕ → Option Resolution
cleared_rule r c none = none
cleared_rule r c (some limit) =
    if is_violated r c.value limit c.hysteresis c.hysteresis
    then none
    else some (cleared r c.value limit c.hysteresis)

unfoldable pub clears : Tank → List AlarmCandidate → Check → AlarmType → Option Resolution
clears t cs c (threshold r) = cleared_rule r c (threshold_of t r)
clears t cs c sensor_fault =
    if any (λ x. type_eq x.type sensor_fault) cs then none else some (back_within c.value)

-- the member of the set under an open key
abbrev pub one : Text
one = codes "1"

module _ {V : Type 0} (r : Redis OpenKey V) (t : Tank) where
  abbrev pub is_open : AlarmType → r.Store → Bool
  is_open type s = r.sismember (t.id, type) one s

  -- The raise loop: the alarms that fire, and the store.
  unfoldable pub raise_alarms : List AlarmCandidate → r.Store → List AlarmCandidate × r.Store
  raise_alarms [] s = ([], s)
  raise_alarms (c ∷ cs) s =
      let seen = is_open c.type s in
      let rest = raise_alarms cs (if seen then s else r.sadd (t.id, c.type) one s) in
      ((if seen then rest.0 else c ∷ rest.0), rest.1)

  -- The row is resolved if there is one; the key goes in any case.
  abbrev pub resolve_row : ℕ → Resolution → Option Alarm → List Alarm → List Alarm × List Alarm
  resolve_row now why none rows = ([], rows)
  resolve_row now why (some a) rows =
      (resolve now why a ∷ [], update_alarm a.id (resolve now why) rows)

  abbrev pub close_check :
      ℕ → Check → Option Resolution → r.Store → List Alarm → List Alarm × (r.Store × List Alarm)
  close_check now c none s rows = ([], (s, rows))
  close_check now c (some why) s rows =
      let done = resolve_row now why (newest_live t.id c.type rows) rows in
      (done.0, (r.srem (t.id, c.type) one s, done.1))

  unfoldable pub check_alarm :
      ℕ → List AlarmCandidate → Check → r.Store → List Alarm → List Alarm × (r.Store × List Alarm)
  check_alarm now cs c s rows =
      close_check now c (if is_open c.type s then clears t cs c c.type else none) s rows

  -- `_resolve_cleared`: the rows that were resolved, the store, the table.
  unfoldable pub resolve_cleared :
      ℕ
      → List AlarmCandidate
      → List Check
      → r.Store
      → List Alarm
      → List Alarm × (r.Store × List Alarm)
  resolve_cleared now cs [] s rows = ([], (s, rows))
  resolve_cleared now cs (c ∷ rest) s rows =
      let (done, (s1, rows1)) = check_alarm now cs c s rows in
      let (more, after) = resolve_cleared now cs rest s1 rows1 in (done ++ more, after)

  -- The rows of the alarms that fired; a new row stands first.
  unfoldable pub add_alarms : (next at : ℕ) → List AlarmCandidate → List Alarm → List Alarm × ℕ
  add_alarms next at [] rows = (rows, next)
  add_alarms next at (c ∷ cs) rows = add_alarms (next + 1) at cs (new_alarm next t.id at c ∷ rows)

  -- The alarm part of `process`, at time `now` for a reading that was captured at `at`.
  unfoldable pub process_alarms :
      (now at : ℕ) → Reading → AlarmWorld r.Store → List AlarmCandidate × AlarmWorld r.Store
  process_alarms now at f w =
      let cs = candidates t f in
      let (fired, s1) = raise_alarms cs w.store in
      let (done, (s2, rows)) = resolve_cleared now cs (checks f.level f.volume) s1 w.alarms in
      let (rows', next') = add_alarms w.next_id at fired rows in
      (
        fired,
        record {
          store = s2;
          alarms = rows';
          next_id = next';
          published =
              w.published ++ (map (λ c. raised c at) fired ++ map (λ a. resolution a at) done);
        },
      )
