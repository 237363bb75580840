-- ===== src/Alarms/Rules.antt =====
-- The alarm rules: `LEVEL_RULES`, `VOLUME_RULES`, `_is_violated` and `evaluate_alarm_rules`.
-- A level is in micrometres and a volume in decilitres, where the code has metres and litres as
-- floats.
use fuel_monitoring.Prelude.{
  ℕ, ◌+◌, ◌≡◌, refl, Bool, true, false, Option, none, some, List, [], ◌∷◌, ◌++◌, leb, if◌then◌else◌,
  ap,
}
use fuel_monitoring.Dispensing.Models.{round3}

-- The alarm types with a threshold. `_is_violated` raises on any other string.
pub data RuleType : Type 0 where
  critical_level low_level high_level low_volume high_volume : RuleType

pub data AlarmType : Type 0 where
  threshold : RuleType → AlarmType
  sensor_fault : AlarmType

pub data Severity : Type 0 where
  warning critical : Severity

-- What the formatted text of an alarm is made of.
pub data Message : Type 0 where
  crossed : RuleType → (value threshold : ℕ) → Message
  exceeds : (derived_level tank_height pressure : ℕ) → Message

-- `AlarmCandidate`
pub record AlarmCandidate : Type 0 where
  pub type : AlarmType
  pub level : Severity
  pub message : Message
  pub value : ℕ

-- The columns of a tank that the rules read; `none` is a threshold that is not set.
pub record Tank : Type 0 where
  pub id : ℕ
  pub critical_level_threshold : Option ℕ
  pub low_level_threshold : Option ℕ
  pub high_level_threshold : Option ℕ
  pub low_volume_threshold : Option ℕ
  pub high_volume_threshold : Option ℕ

-- `getattr(tank, attr)`, the attribute of each rule
abbrev pub threshold_of : Tank → RuleType → Option ℕ
threshold_of t critical_level = t.critical_level_threshold
threshold_of t low_level = t.low_level_threshold
threshold_of t high_level = t.high_level_threshold
threshold_of t low_volume = t.low_volume_threshold
threshold_of t high_volume = t.high_volume_threshold

abbrev pub severity_of : RuleType → Severity
severity_of critical_level = critical
severity_of _ = warning

abbrev pub level_rules : List RuleType
level_rules = critical_level ∷ low_level ∷ high_level ∷ []

abbrev pub volume_rules : List RuleType
volume_rules = low_volume ∷ high_volume ∷ []

-- `_is_violated(alarm_type, value, threshold, hysteresis_m, hysteresis_l)`
unfoldable pub is_violated : RuleType → (value limit hysteresis_m hysteresis_l : ℕ) → Bool
is_violated critical_level value limit m l = leb value limit
is_violated low_level value limit m l = leb value limit
is_violated high_level value limit m l = leb (limit + m) value
is_violated low_volume value limit m l = leb (value + l) limit
is_violated high_volume value limit m l = leb (limit + l) value

-- `round(level, 3)` of a level, and a volume has one decimal as it is.
abbrev pub rounded : RuleType → ℕ → ℕ
rounded low_volume value = value
rounded high_volume value = value
rounded _ value = round3 value

abbrev pub crossing : RuleType → (value limit : ℕ) → AlarmCandidate
crossing r value limit = record {
  type = threshold r;
  level = severity_of r;
  message = crossed r value limit;
  value = rounded r value;
}

abbrev pub candidate_at : RuleType → ℕ → Option ℕ → List AlarmCandidate
candidate_at r value none = []
candidate_at r value (some limit) =
    if is_violated r value limit 0 0 then crossing r value limit ∷ [] else []

-- One of the two loops of `evaluate_alarm_rules`.
unfoldable pub candidates_of : Tank → ℕ → List RuleType → List AlarmCandidate
candidates_of t value [] = []
candidates_of t value (r ∷ rs) = candidate_at r value (threshold_of t r) ++ candidates_of t value rs

-- `evaluate_alarm_rules`; the fill percentage is not read.
unfoldable pub evaluate_alarm_rules : Tank → (level volume : ℕ) → List AlarmCandidate
evaluate_alarm_rules t level volume =
    candidates_of t level level_rules ++ candidates_of t volume volume_rules

unfoldable pub rule_eq : RuleType → RuleType → Bool
rule_eq critical_level critical_level = true
rule_eq low_level low_level = true
rule_eq high_level high_level = true
rule_eq low_volume low_volume = true
rule_eq high_volume high_volume = true
rule_eq _ _ = false

unfoldable pub type_eq : AlarmType → AlarmType → Bool
type_eq (threshold a) (threshold b) = rule_eq a b
type_eq sensor_fault sensor_fault = true
type_eq _ _ = false

pub rule_eq_sound : (a b : RuleType) → rule_eq a b ≡ true → a ≡ b
unfolding rule_eq
rule_eq_sound critical_level critical_level h = refl
rule_eq_sound low_level low_level h = refl
rule_eq_sound high_level high_level h = refl
rule_eq_sound low_volume low_volume h = refl
rule_eq_sound high_volume high_volume h = refl
rule_eq_sound _ _ h = cc

pub rule_eq_refl : (a : RuleType) → rule_eq a a ≡ true
unfolding rule_eq
rule_eq_refl critical_level = refl
rule_eq_refl low_level = refl
rule_eq_refl high_level = refl
rule_eq_refl low_volume = refl
rule_eq_refl high_volume = refl

pub type_eq_sound : (a b : AlarmType) → type_eq a b ≡ true → a ≡ b
unfolding type_eq
type_eq_sound (threshold a) (threshold b) h = ap threshold (rule_eq_sound a b h)
type_eq_sound sensor_fault sensor_fault h = refl
type_eq_sound _ _ h = cc

pub type_eq_refl : (a : AlarmType) → type_eq a a ≡ true
unfolding type_eq
type_eq_refl (threshold a) = rule_eq_refl a
type_eq_refl sensor_fault = refl
