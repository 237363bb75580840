-- ===== src/Stale/Devices.antt =====
-- The sweep over tanks, gateways and stations (`_backfill_last_connection`, `_sweep_async`).
use fuel_monitoring.Prelude.{
  ℕ, ◌+◌, ◌-◌, ◌/◌, Bool, true, false, not, ◌&&◌, Option, none, some, List, [], ◌∷◌, ltb, max, ◌==◌,
  if◌then◌else◌,
}
use fuel_monitoring.Redis.{Redis}
use fuel_monitoring.Stale.Alarm.{
  Message, no_telemetry_for, reported_again_after, Outcome, was_raised, was_resolved, AlarmWorld,
  raise_or_clear,
}

pub data Connection : Type 0 where
  online offline other : Connection

pub record Tank : Type 0 where
  pub id : ℕ
  pub is_deleted : Bool
  pub last_connection : Option ℕ
  pub connection_status : Connection

-- A gateway by `last_seen`, a station by `last_heartbeat`.
pub record Device : Type 0 where
  pub last_seen : Option ℕ
  pub connection_status : Connection

pub record Measurement : Type 0 where
  pub tank_id : ℕ
  pub timestamp : ℕ

abbrev pub tank_stale_after : ℕ
tank_stale_after = 300

abbrev pub gateway_stale_after : ℕ
gateway_stale_after = 600

-- `newest`: the latest measurement of a tank
abbrev latest : ℕ → Option ℕ → Option ℕ
latest t none = some t
latest t (some u) = some (max t u)

unfoldable pub newest : ℕ → List Measurement → Option ℕ
newest tank [] = none
newest tank (m ∷ ms) =
    let rest = newest tank ms in if m.tank_id == tank then latest m.timestamp rest else rest

-- The time that a tank without one gets: its newest measurement, or one that is stale.
abbrev pub filled_time : ℕ → Option ℕ → ℕ
filled_time now (some t) = t
filled_time now none = now - (tank_stale_after + 1)

abbrev pub is_missing : Tank → Bool
is_missing t = not t.is_deleted && elim t.last_connection [ none ↦ true | some u ↦ false ]

unfoldable pub backfill : ℕ → List Measurement → List Tank → List Tank × ℕ
backfill now ms [] = ([], 0)
backfill now ms (t ∷ ts) =
    let (rest, n) = backfill now ms ts in
    if is_missing t
    then (record t { last_connection = some (filled_time now (newest t.id ms)) } ∷ rest, n + 1)
    else (t ∷ rest, n)

-- The seconds of silence; none stands for the infinite silence of a tank without a time. A time in the
-- future counts as no silence.
abbrev pub silent_seconds : ℕ → Option ℕ → Option ℕ
silent_seconds now none = none
silent_seconds now (some t) = some (now - t)

abbrev pub is_stale : Option ℕ → Bool
is_stale none = true
is_stale (some s) = ltb tank_stale_after s

abbrev seconds : Option ℕ → ℕ
seconds none = 0
seconds (some s) = s

abbrev pub is_offline : Connection → Bool
is_offline offline = true
is_offline _ = false

-- The counters of the result that concern tanks, and the tanks that a notification went out for.
pub record Tally : Type 0 where
  pub tanks_marked_offline : ℕ
  pub tanks_recovered : ℕ
  pub alarms_raised : ℕ
  pub alarms_cleared : ℕ
  pub notified : List ℕ

abbrev bump : Bool → ℕ → ℕ
bump b n = if b then n + 1 else n

abbrev is_raised : Outcome → Bool
is_raised was_raised = true
is_raised _ = false

abbrev is_cleared : Outcome → Bool
is_cleared was_resolved = true
is_cleared _ = false

module _ {V : Type 0} (r : Redis ℕ V) (now : ℕ) where
  abbrev pub message_for : Bool → Option ℕ → Message
  message_for true s = no_telemetry_for (seconds s / 60)
  message_for false s = reported_again_after (seconds s)

  abbrev pub tally : Bool → Tank → Outcome → Tally → Tally
  tally stale t o y = record {
    tanks_marked_offline =
        bump (stale && not (is_offline t.connection_status)) y.tanks_marked_offline;
    tanks_recovered = bump (not stale && is_offline t.connection_status) y.tanks_recovered;
    alarms_raised = bump (is_raised o) y.alarms_raised;
    alarms_cleared = bump (is_cleared o) y.alarms_cleared;
    notified = if is_raised o then t.id ∷ y.notified else y.notified;
  }

  abbrev pub stale_at : Tank → Bool
  stale_at t = is_stale (silent_seconds now t.last_connection)

  -- The two branches, for a tank with this silence.
  unfoldable pub judge_as :
      (stale : Bool)
      → Option ℕ
      → Tank
      → Tally
      → AlarmWorld r.Store
      → Tank × (Tally × AlarmWorld r.Store)
  judge_as stale s t y w =
      let (o, after) = raise_or_clear r now t.id (not stale) (message_for stale s) w in
      (
        record t { connection_status = if stale then offline else online },
        (tally stale t o y, after),
      )

  -- The body of the loop: a deleted tank is passed over.
  unfoldable pub visit :
      (is_deleted : Bool) → Tank → Tally → AlarmWorld r.Store → Tank × (Tally × AlarmWorld r.Store)
  visit true t y w = (t, (y, w))
  visit false t y w = judge_as (stale_at t) (silent_seconds now t.last_connection) t y w

  -- The loop over the tanks.
  unfoldable pub sweep_tanks :
      List Tank → Tally → AlarmWorld r.Store → List Tank × (Tally × AlarmWorld r.Store)
  sweep_tanks [] y w = ([], (y, w))
  sweep_tanks (t ∷ ts) y w =
      let (t', (y1, w1)) = visit t.is_deleted t y w in
      let (rest, after) = sweep_tanks ts y1 w1 in (t' ∷ rest, after)

-- The loops over gateways and stations, with the count of those marked offline.
abbrev pub judge_device : ℕ → Device → Option ℕ → Device × ℕ
judge_device now d none = (d, 0)
judge_device now d (some t) =
    if ltb (t + gateway_stale_after) now
    then (record d { connection_status = offline }, if is_offline d.connection_status then 0 else 1)
    else if is_offline d.connection_status
    then (record d { connection_status = online }, 0)
    else (d, 0)

unfoldable pub sweep_devices : ℕ → List Device → List Device × ℕ
sweep_devices now [] = ([], 0)
sweep_devices now (d ∷ ds) =
    let (d', n) = judge_device now d d.last_seen in
    let (rest, m) = sweep_devices now ds in (d' ∷ rest, n + m)

-- The tables that a sweep reads and writes, and its result.
pub record Fleet (Store : Type 0) : Type 0 where
  pub tanks : List Tank
  pub gateways : List Device
  pub stations : List Device
  pub measurements : List Measurement
  pub alarms : AlarmWorld Store

pub record SweepResult : Type 0 where
  pub tanks_backfilled : ℕ
  pub tally : Tally
  pub gateways_marked_offline : ℕ
  pub stations_marked_offline : ℕ

abbrev pub no_tally : Tally
no_tally = record {
  tanks_marked_offline = 0;
  tanks_recovered = 0;
  alarms_raised = 0;
  alarms_cleared = 0;
  notified = [];
}

-- `_sweep_async`
unfoldable pub sweep :
    {V : Type 0} (r : Redis ℕ V) → ℕ → Fleet r.Store → SweepResult × Fleet r.Store
sweep r now f =
    let (filled, n) = backfill now f.measurements f.tanks in
    let (tanks, (y, alarms)) = sweep_tanks r now filled no_tally f.alarms in
    let (gateways, g) = sweep_devices now f.gateways in
    let (stations, s) = sweep_devices now f.stations in
    (
      record {
        tanks_backfilled = n;
        tally = y;
        gateways_marked_offline = g;
        stations_marked_offline = s;
      },
      record f { tanks = tanks; gateways = gateways; stations = stations; alarms = alarms },
    )
