-- ===== src/Alarms/Switch.antt =====
-- A threshold alarm as a switch: each reading sets it and resets it, by two tests of one value.
use fuel_monitoring.Prelude.{
  ℕ, ◌≡◌, refl, ◌∙◌, Bool, true, false, not, ◌&&◌, ◌||◌, Option, none, some, List, [], ◌∷◌, ◌++◌,
  any, arith, if◌then◌else◌,
}
use fuel_monitoring.Redis.{Redis, RedisLaws}
use fuel_monitoring.Alarms.Rules.{
  RuleType, critical_level, low_level, high_level, low_volume, high_volume, threshold,
  AlarmCandidate, Tank, threshold_of, is_violated, level_rules, volume_rules, candidate_at,
  candidates_of, evaluate_alarm_rules, rule_eq, type_eq,
}
use fuel_monitoring.Alarms.Frame.{
  OpenKey, Reading, OverRange, AlarmWorld, hysteresis_meters, hysteresis_liters, candidates,
  fault_candidate, checks, clears, is_open, process_alarms, raise_alarms,
}
use fuel_monitoring.Alarms.Open.{
  count_type, has_type, closes, raise_alarms-is_open, raise_alarms-count_type,
  resolve_cleared-is_open,
}

-- The measured value that a rule reads, and its hysteresis.
abbrev pub measured : RuleType → Reading → ℕ
measured low_volume f = f.volume
measured high_volume f = f.volume
measured _ f = f.level

abbrev pub band : RuleType → ℕ
band low_volume = hysteresis_liters
band high_volume = hysteresis_liters
band _ = hysteresis_meters

-- Whether a reading sets the switch of a rule, and whether it leaves it set.
abbrev pub sets : RuleType → ℕ → Option ℕ → Bool
sets r value none = false
sets r value (some limit) = is_violated r value limit 0 0

abbrev pub keeps : RuleType → ℕ → Option ℕ → Bool
keeps r value none = true
keeps r value (some limit) = is_violated r value limit (band r) (band r)

any-append {ℓ} :
    {A : Type ℓ} (p : A → Bool) (xs ys : List A) → any p (xs ++ ys) ≡ (any p xs || any p ys)
any-append p [] ys = refl
any-append p (x ∷ xs) ys = ground (arith, any-append p xs ys)

candidate_at-has_type :
    (r u : RuleType) (value : ℕ) (o : Option ℕ)
    → has_type (threshold r) (candidate_at u value o) ≡ (rule_eq u r && sets u value o)
unfolding type_eq
candidate_at-has_type r u value none = ground arith
candidate_at-has_type r u value (some limit) = ground arith

candidates_of-has_type :
    (r : RuleType) (t : Tank) (value : ℕ) (rs : List RuleType)
    → has_type (threshold r) (candidates_of t value rs)
      ≡ any (λ (u : RuleType). rule_eq u r && sets u value (threshold_of t u)) rs
unfolding candidates_of
candidates_of-has_type r t value [] = refl
candidates_of-has_type r t value (u ∷ rs) =
    any-append (λ (c : AlarmCandidate). type_eq c.type (threshold r))
      (candidate_at u value (threshold_of t u)) (candidates_of t value rs)
    ∙ rw (candidate_at-has_type r u value (threshold_of t u), candidates_of-has_type r t value rs)
        refl

fault_candidate-has_type :
    (r : RuleType) (o : Option OverRange) → has_type (threshold r) (fault_candidate o) ≡ false
unfolding type_eq
fault_candidate-has_type r none = refl
fault_candidate-has_type r (some o) = refl

abbrev set_by : RuleType → Tank → Reading → Bool
set_by r t f = sets r (measured r f) (threshold_of t r)

-- Among the rules of both lists only the one of the type counts.
selected :
    (t : Tank) (f : Reading) (r : RuleType)
    → ((any (λ (u : RuleType). rule_eq u r && sets u f.level (threshold_of t u)) level_rules
          || any (λ (u : RuleType). rule_eq u r && sets u f.volume (threshold_of t u)) volume_rules)
        || false)
      ≡ set_by r t f
unfolding rule_eq
selected t f critical_level = ground arith
selected t f low_level = ground arith
selected t f high_level = ground arith
selected t f low_volume = ground arith
selected t f high_volume = ground arith

-- A type is among the candidates when its rule is violated without hysteresis.
candidates-has_type :
    (r : RuleType) (t : Tank) (f : Reading) → has_type (threshold r) (candidates t f) ≡ set_by r t f
unfolding evaluate_alarm_rules
candidates-has_type r t f =
    any-append (λ (c : AlarmCandidate). type_eq c.type (threshold r))
      (candidates_of t f.level level_rules ++ candidates_of t f.volume volume_rules)
      (fault_candidate f.over_range)
    ∙ rw
        (
          fault_candidate-has_type r f.over_range,
          any-append (λ (c : AlarmCandidate). type_eq c.type (threshold r))
              (candidates_of t f.level level_rules) (candidates_of t f.volume volume_rules),
          candidates_of-has_type r t f.level level_rules,
          candidates_of-has_type r t f.volume volume_rules,
        )
        (selected t f r)

-- It is closed when its threshold is set and no longer violated with hysteresis.
closes_lem :
    (r : RuleType) (t : Tank) (f : Reading) (cs : List AlarmCandidate)
    → closes t cs (threshold r) (checks f.level f.volume)
      ≡ not (keeps r (measured r f) (threshold_of t r))
unfolding type_eq rule_eq clears
closes_lem critical_level t f cs = ground arith
closes_lem low_level t f cs = ground arith
closes_lem high_level t f cs = ground arith
closes_lem low_volume t f cs = ground arith
closes_lem high_volume t f cs = ground arith

-- A reading drives the alarm of each rule as a switch. The alarm fires when its key was closed and the
-- value violates the threshold; afterwards the key is open when it was open or the value violates the
-- threshold, and the value also violates it beyond the hysteresis.
pub process_alarms-rule :
    {V : Type 0} (r : Redis OpenKey V) (laws : RedisLaws r) (t : Tank) (rule : RuleType)
    (now at : ℕ) (f : Reading) (w : AlarmWorld r.Store)
    → let (fired, after) = process_alarms r t now at f w in
      let was = is_open r t (threshold rule) w.store in
      let set = sets rule (measured rule f) (threshold_of t rule) in
      let kept = keeps rule (measured rule f) (threshold_of t rule) in
      (count_type (threshold rule) fired ≡ (if not was && set then 1 else 0))
      × (is_open r t (threshold rule) after.store ≡ ((was || set) && kept))
unfolding process_alarms
process_alarms-rule r laws t rule now at f w =
    let cs = candidates t f in
    let (fired, s1) = raise_alarms r t cs w.store in
    (
      raise_alarms-count_type r laws t (threshold rule) cs w.store
          ∙ rw (candidates-has_type rule t f) refl,
      resolve_cleared-is_open r laws t (threshold rule) now cs (checks f.level f.volume) s1 w.alarms
          ∙ rw
              (
                raise_alarms-is_open r laws t (threshold rule) cs w.store,
                candidates-has_type rule t f,
                closes_lem rule t f cs,
              )
              (ground arith),
    )
