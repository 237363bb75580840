-- ===== src/Alarms/Runs.antt =====
-- How often an alarm fires in a run of readings.
use fuel_monitoring.Prelude.{
  ℕ, ◌+◌, ◌≤◌, ◌<◌, ◌≡◌, refl, ◌≢◌, Bool, true, false, some, List, [], ◌∷◌, arith, All, length,
}
use fuel_monitoring.Redis.{Redis, RedisLaws}
use fuel_monitoring.Alarms.Rules.{
  RuleType, critical_level, low_level, high_level, low_volume, high_volume, threshold, Tank,
  threshold_of, is_violated,
}
use fuel_monitoring.Alarms.Frame.{OpenKey, Reading, AlarmWorld, is_open, process_alarms}
use fuel_monitoring.Alarms.Open.{count_type}
use fuel_monitoring.Alarms.Switch.{measured, band, sets, keeps, process_alarms-rule}

-- A reading with the times of its processing and of its capture.
pub record Arrival : Type 0 where
  pub now : ℕ
  pub at : ℕ
  pub reading : Reading

-- A value that violates the threshold, but not beyond the hysteresis. The rules for low levels know no
-- such value.
abbrev pub IsInBand : RuleType → (limit value : ℕ) → Type 0
IsInBand critical_level limit v = ⊥
IsInBand low_level limit v = ⊥
IsInBand high_level limit v = (limit ≤ v) × (v < limit + band high_level)
IsInBand low_volume limit v = (v ≤ limit) × (limit < v + band low_volume)
IsInBand high_volume limit v = (limit ≤ v) × (v < limit + band high_volume)

-- A value that violates the threshold also beyond the hysteresis.
abbrev pub IsBeyond : RuleType → (limit value : ℕ) → Type 0
IsBeyond critical_level limit v = v ≤ limit
IsBeyond low_level limit v = v ≤ limit
IsBeyond high_level limit v = limit + band high_level ≤ v
IsBeyond low_volume limit v = v + band low_volume ≤ limit
IsBeyond high_volume limit v = limit + band high_volume ≤ v

IsInBand-tests :
    (rule : RuleType) (limit v : ℕ)
    → IsInBand rule limit v
    → (sets rule v (some limit) ≡ true) × (keeps rule v (some limit) ≡ false)
unfolding is_violated
IsInBand-tests critical_level limit v h = elim h [ ]
IsInBand-tests low_level limit v h = elim h [ ]
IsInBand-tests high_level limit v h = (ground arith, ground arith)
IsInBand-tests low_volume limit v h = (ground arith, ground arith)
IsInBand-tests high_volume limit v h = (ground arith, ground arith)

IsBeyond-tests :
    (rule : RuleType) (limit v : ℕ)
    → IsBeyond rule limit v
    → (sets rule v (some limit) ≡ true) × (keeps rule v (some limit) ≡ true)
unfolding is_violated
IsBeyond-tests critical_level limit v h = (ground arith, ground arith)
IsBeyond-tests low_level limit v h = (ground arith, ground arith)
IsBeyond-tests high_level limit v h = (ground arith, ground arith)
IsBeyond-tests low_volume limit v h = (ground arith, ground arith)
IsBeyond-tests high_volume limit v h = (ground arith, ground arith)

module _ {V : Type 0} (r : Redis OpenKey V) (t : Tank) (rule : RuleType) where
  -- How often the rule's alarm fires in a run, and the world after it.
  unfoldable pub fired_in : List Arrival → AlarmWorld r.Store → ℕ × AlarmWorld r.Store
  fired_in [] w = (0, w)
  fired_in (a ∷ rest) w =
      let (fired, w1) = process_alarms r t a.now a.at a.reading w in
      let (n, w2) = fired_in rest w1 in (count_type (threshold rule) fired + n, w2)

  abbrev pub opened : AlarmWorld r.Store → Bool
  opened w = is_open r t (threshold rule) w.store

  module _ (laws : RedisLaws r) (limit : ℕ) (set : threshold_of t rule ≡ some limit) where
    abbrev HasValues : (ℕ → ℕ → Type 0) → List Arrival → Type 0
    HasValues P arrivals = All (λ (a : Arrival). P limit (measured rule a.reading)) arrivals

    -- From a closed key, each value in the band fires its alarm again: the reading that fires it also
    -- closes its key.
    pub band_refires :
        (arrivals : List Arrival) (w : AlarmWorld r.Store)
        → HasValues (IsInBand rule) arrivals
        → opened w ≡ false
        → ((fired_in arrivals w).0 ≡ length arrivals) × (opened (fired_in arrivals w).1 ≡ false)
    unfolding fired_in
    band_refires [] w h shut = (refl, shut)
    band_refires (a ∷ rest) w h shut =
        let (fires, key) = process_alarms-rule r laws t rule a.now a.at a.reading w in
        let tests = IsInBand-tests rule limit (measured rule a.reading) h.0 in
        let (n, done) =
          band_refires rest (process_alarms r t a.now a.at a.reading w).1 h.1
            (ground (arith, key, set, tests)) in
        (ground (arith, fires, set, tests, n), done)

    -- While a value stays beyond the band an open alarm fires no more.
    pub open_silent :
        (arrivals : List Arrival) (w : AlarmWorld r.Store)
        → HasValues (IsBeyond rule) arrivals
        → opened w ≡ true
        → ((fired_in arrivals w).0 ≡ 0) × (opened (fired_in arrivals w).1 ≡ true)
    unfolding fired_in
    open_silent [] w h on = (refl, on)
    open_silent (a ∷ rest) w h on =
        let (fires, key) = process_alarms-rule r laws t rule a.now a.at a.reading w in
        let tests = IsBeyond-tests rule limit (measured rule a.reading) h.0 in
        let (n, done) =
          open_silent rest (process_alarms r t a.now a.at a.reading w).1 h.1
            (ground (arith, key, set, tests)) in
        (ground (arith, fires, set, tests, n), done)

    -- From a closed key, a run of values beyond the band, with one at least, fires one alarm and leaves
    -- the key open.
    pub beyond_fires_once :
        (arrivals : List Arrival) (w : AlarmWorld r.Store)
        → HasValues (IsBeyond rule) arrivals
        → arrivals ≢ []
        → opened w ≡ false
        → ((fired_in arrivals w).0 ≡ 1) × (opened (fired_in arrivals w).1 ≡ true)
    unfolding fired_in
    beyond_fires_once [] w h some_arrival shut = absurd (some_arrival refl)
    beyond_fires_once (a ∷ rest) w h some_arrival shut =
        let (fires, key) = process_alarms-rule r laws t rule a.now a.at a.reading w in
        let tests = IsBeyond-tests rule limit (measured rule a.reading) h.0 in
        let (n, done) =
          open_silent rest (process_alarms r t a.now a.at a.reading w).1 h.1
            (ground (arith, key, set, tests)) in
        (ground (arith, fires, set, tests, n), done)
