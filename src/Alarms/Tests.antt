-- ===== src/Alarms/Tests.antt =====
-- A tank with its readings, and the alarm theorems at them.
use fuel_monitoring.Prelude.{
  ℕ, ◌≡◌, refl, ◌&&◌, Bool, true, false, none, some, List, [], ◌∷◌, codes, text_eq, arith, ◌==◌,
  if◌then◌else◌, not, ◌||◌,
}
use fuel_monitoring.Redis.{Redis, RedisLaws}
use fuel_monitoring.Redis.Memory.{Memory, memory_redis, memory_laws}
use fuel_monitoring.Alarms.Rules.{
  high_level, low_level, threshold, Tank, type_eq, type_eq_sound, type_eq_refl, threshold_of,
  rule_eq,
}
use fuel_monitoring.Alarms.Frame.{OpenKey, AlarmWorld, is_open, process_alarms}
use fuel_monitoring.Alarms.Open.{count_type}
use fuel_monitoring.Alarms.Switch.{process_alarms-rule, sets, keeps}
use fuel_monitoring.Alarms.Runs.{Arrival, fired_in, opened, band_refires}
use fuel_monitoring.Auth.Login.{User, answer}
use fuel_monitoring.Alarms.Table
use fuel_monitoring.Alarms.Table.{Alarm, resolved}
use fuel_monitoring.Alarms.Rules
use fuel_monitoring.Alarms.Manual.{Placement, in_scope, resolve_alarm}
use fuel_monitoring.Alarms.Manual.Silence.{is_privileged, resolve_alarm_silences}

abbrev key_eq : OpenKey → OpenKey → Bool
key_eq (i, a) (j, b) = i == j && type_eq a b

key_eq_sound : (a b : OpenKey) → key_eq a b ≡ true → a ≡ b
key_eq_sound (i, a) (j, b) h = ground (arith, type_eq_sound a b)

key_eq_refl : (a : OpenKey) → key_eq a a ≡ true
key_eq_refl (i, a) = ground (arith, type_eq_refl a)

abbrev server : Redis OpenKey Unit
server = memory_redis key_eq

laws : RedisLaws server
laws = memory_laws key_eq key_eq_sound key_eq_refl

-- low at 0.4 m, high at 2 m
abbrev tank : Tank
tank = record {
  id = 3;
  critical_level_threshold = none;
  low_level_threshold = some 400000;
  high_level_threshold = some 2000000;
  low_volume_threshold = none;
  high_volume_threshold = none;
}

abbrev quiet : AlarmWorld (Memory OpenKey Unit)
quiet = record {
  store = record { members = λ k m. false; values = λ k. none; scores = λ k. [] };
  alarms = [];
  next_id = 1;
  published = [];
}

abbrev at_level : ℕ → Arrival
at_level level = record {
  now = 100;
  at = 90;
  reading = record { level = level; volume = 5000; over_range = none };
}

abbrev near_full : List Arrival
near_full = at_level 2000000 ∷ at_level 2049999 ∷ at_level 2000001 ∷ []

abbrev low : List Arrival
low = at_level 400000 ∷ at_level 399000 ∷ at_level 400000 ∷ []

band_refires_example :
    ((fired_in server tank high_level near_full quiet).0 ≡ 3)
    × (opened server tank high_level (fired_in server tank high_level near_full quiet).1 ≡ false)
band_refires_example =
    band_refires server tank high_level laws 2000000 refl near_full quiet
      ((omega arith, omega arith), ((omega arith, omega arith), ((omega arith, omega arith), tt)))
      refl

process_alarms-rule_example :
    let (fired, after) = process_alarms server tank 100 90 (at_level 2000000).reading quiet in
    let was = is_open server tank (threshold high_level) quiet.store in
    let set = sets high_level 2000000 (threshold_of tank high_level) in
    let kept = keeps high_level 2000000 (threshold_of tank high_level) in
    (count_type (threshold high_level) fired ≡ (if not was && set then 1 else 0))
    × (is_open server tank (threshold high_level) after.store ≡ ((was || set) && kept))
process_alarms-rule_example =
    process_alarms-rule server laws tank high_level 100 90 (at_level 2000000).reading quiet

abbrev low_alarm : Alarm
low_alarm = record {
  id = 1;
  tank_id = 3;
  timestamp = 90;
  type = threshold low_level;
  level = Rules.warning;
  message = Rules.crossed low_level 400000 400000;
  value = 400;
  state = Table.active;
  resolved_at = none;
  resolved_message = none;
  acknowledged = false;
  acknowledged_by = none;
  acknowledged_at = none;
}

-- the key of the low level is open
abbrev alarmed : AlarmWorld (Memory OpenKey Unit)
alarmed = record {
  store = record {
    members = λ k m. key_eq (3, threshold low_level) k;
    values = λ k. none;
    scores = λ k. [];
  };
  alarms = low_alarm ∷ [];
  next_id = 2;
  published = [];
}

abbrev manager : User
manager = record {
  id = 4;
  username = codes "amal";
  password_hash = codes "x";
  role = codes "company_admin";
  company_id = some 2;
  is_active = true;
  deleted_at = none;
  last_login = none;
}

abbrev placed : List Placement
placed = (record { tank_id = 3; is_deleted = false; company_id = 2 }) ∷ []

manager-is_privileged : is_privileged manager ≡ true
unfolding text_eq
manager-is_privileged = refl

low_alarm-in_scope : in_scope manager placed low_alarm ≡ true
unfolding text_eq
low_alarm-in_scope = refl

low_open : opened server tank low_level alarmed ≡ true
unfolding type_eq rule_eq
low_open = refl

resolve_alarm_silences_example :
    let (response, rows') = resolve_alarm placed 120 1 manager alarmed.alarms none in
    (b : Alarm) × (response ≡ answer b)
    × (b.id ≡ 1)
    × (b.tank_id ≡ tank.id)
    × (b.type ≡ threshold low_level)
    × (b.state ≡ resolved)
    × ((fired_in server tank low_level low (record alarmed { alarms = rows' })).0 ≡ 0)
resolve_alarm_silences_example =
    resolve_alarm_silences placed 120 1 manager (low_alarm ∷ []) low_alarm refl server tank
      low_level laws 400000 none low alarmed refl refl refl manager-is_privileged low_alarm-in_scope
      refl low_open (omega arith, (omega arith, (omega arith, tt)))
