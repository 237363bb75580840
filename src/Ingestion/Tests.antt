-- ===== src/Ingestion/Tests.antt =====
-- Frames, acknowledgements and tanks at work, and the theorems at them.
use fuel_monitoring.Prelude.{
  inl, ℕ, ◌≤◌, ◌≡◌, ◌↔◌, refl, true, false, none, some, List, [], ◌∷◌, ◌++◌, Text, codes, text_eq,
  text_eq→eq, text_eq_refl, length, map, keep_if, All, arith,
}
use fuel_monitoring.Redis.{Redis, RedisLaws}
use fuel_monitoring.Redis.Memory.{Memory, memory_redis, memory_laws}
use fuel_monitoring.Relay.Queue.{Queues}
use fuel_monitoring.Relay.Rows.{GatewayCommand, scan_and_sweep}
use fuel_monitoring.Relay.Rows
use fuel_monitoring.Relay.Final.{rows_of, frames_of}
use fuel_monitoring.Ingestion.DeadLetters.{DeadLetter, missing_or_bad_status}
use fuel_monitoring.Ingestion.Acks.{AckState, executed, acked_row, find_command, handle_command_ack}
use fuel_monitoring.Ingestion.Settling.{ack_of, handle_command_ack-settles}
use fuel_monitoring.Ingestion.Heartbeats.{Installation, tanks_of, beat_station, handle_status}
use fuel_monitoring.Ingestion.Heartbeats.Counted.{IsHeard, IsConnected, handle_status-counts}
use fuel_monitoring.Security.{split}
use fuel_monitoring.Relay.Topics.{fuel_topic, ack_topic_for, parse_fuel_topic}
use fuel_monitoring.Ingestion.Routing.{
  route, starts_with, enqueue, heartbeat, command_ack, malformed, unhandled,
}
use fuel_monitoring.Ingestion.Routing.Exact.{route_exact}
use fuel_monitoring.Ingestion.Intake.{
  Counters, Flush, Intake, no_tank, read_queue_max, take_batch, flush_readings,
}
use fuel_monitoring.Ingestion.Intake.Accounting.{
  Event, arrive, flush, run, flushes, run-in_order, flushes-drain,
}
use fuel_monitoring.Prelude.Dict.{lookup}
use fuel_monitoring.Ingestion.Resolve.{
  Names, Resolution, resolve_tank_id, set_tank_cache, Tank, Caches, matched, one, get_tank,
  tanks_with_serial, resolve_tank,
}
use fuel_monitoring.Ingestion.Resolve.Mixing.{
  frame_names, Lasts, resolve_frames, resolve_tank_mixes,
}

abbrev letter : DeadLetter
letter = record { at = 5; gateway_mac = codes "aa:bb"; reason = missing_or_bad_status }

abbrev row : GatewayCommand
row = record {
  command_id = 1;
  gateway_mac = codes "aa:bb";
  command_type = codes "ping";
  payload_json = codes "{}";
  status = Rows.sent;
  attempts = 1;
  max_attempts = 3;
  next_retry_at = some 500;
  sent_at = some 440;
  created_at = 300;
  error_message = none;
  ack_status = none;
  ack_detail = none;
  ack_received_at = none;
}

abbrev known : AckState
known = record { commands = row ∷ []; gateways = []; dead = [] }

abbrev idle : Queues
idle = record { outbound = []; inflight = [] }

row_found : find_command 1 known.commands ≡ some row
unfolding find_command
row_found = refl

-- The acknowledgement of another gateway settles the command of this one.
handle_command_ack-settles_example :
    let after =
      (handle_command_ack
        (λ t. some 1)
        450
        (codes "cc:dd")
        (ack_of (codes "one") executed none)
        known).commands in
    (rows_of 1 (scan_and_sweep 900 after idle).0
      ≡ map (acked_row 450 executed none) (rows_of 1 known.commands))
    × (frames_of 1 (scan_and_sweep 900 after idle).1.outbound ≡ frames_of 1 idle.outbound)
handle_command_ack-settles_example =
    handle_command_ack-settles (λ t. some 1) 450 900 b'o' 1 (codes "cc:dd") (codes "ne") executed
      none row known idle refl row_found

abbrev zeros : Counters
zeros = record {
  received = 0;
  persisted = 0;
  dropped_queue_full = 0;
  batches = 0;
  queue_depth = 0;
  batch_latency_ms = 0;
  batch_latency_ms_max = 0;
}

abbrev intake : Intake ℕ
intake = record { queue = 4 ∷ 5 ∷ []; dropped = 0; table = []; counters = zeros }

-- No frame has a tank, and all else goes well.
abbrev unmatched : Flush ℕ
unmatched = record {
  outcome = λ f. no_tank;
  committed = true;
  received_up = true;
  persisted_up = true;
  batch_up = true;
  handler_received_up = true;
  handler_dropped_up = true;
  latency = 3;
}

abbrev events : List (Event ℕ)
events = arrive true 6 ∷ flush unmatched ∷ arrive false 7 ∷ []

run-in_order_example :
    let ((accepted, taken), st') = run events intake in
    (taken ++ st'.queue ≡ intake.queue ++ accepted) × (length st'.queue ≤ read_queue_max)
run-in_order_example = run-in_order events intake (omega arith)

flushes-drain_example : (flushes (unmatched ∷ []) intake).queue ≡ []
flushes-drain_example = flushes-drain (unmatched ∷ []) intake (omega arith)

unmatched_batch : All (λ f. unmatched.outcome f ≡ no_tank) (flush_readings unmatched intake).0
unfolding flush_readings take_batch
unmatched_batch = (refl, (refl, tt))

abbrev server : Redis Text Text
server = memory_redis text_eq

laws : RedisLaws server
laws = memory_laws text_eq text_eq→eq text_eq_refl

abbrev empty : Memory Text Text
empty = record { members = λ k m. false; values = λ k. none; scores = λ k. [] }

abbrev tank : Text → Text → Tank
tank id serial = record {
  id = id;
  sensor_serial_number = serial;
  gateway_mac = some (codes "aa:bb");
  company_id = none;
}

abbrev tanks : List Tank
tanks = tank (codes "t1") (codes "s1") ∷ tank (codes "t2") (codes "s2") ∷ []

abbrev caches : Caches server
caches = record { store = empty; tank_cache = [] }

first_by_serial : tanks_with_serial (codes "s1") tanks ≡ one (codes "t1")
unfolding tanks_with_serial text_eq
first_by_serial = refl

first_there : get_tank (codes "t1") tanks ≡ some (codes "t1")
unfolding get_tank text_eq
first_there = refl

-- The next batch, and frames of two other sensors of the gateway in it
abbrev next_batch : Caches server
next_batch = record {
  store = (resolve_tank server (frame_names (codes "aa:bb") (codes "s1")) tanks caches).1.store;
  tank_cache = [];
}

abbrev mixed : List Names
mixed = frame_names (codes "aa:bb") (codes "s2") ∷ frame_names (codes "aa:bb") (codes "s3") ∷ []

lasting : Lasts server laws tanks caches (codes "aa:bb") (codes "s1") (codes "t1") next_batch
unfolding lookup resolve_tank resolve_tank_id tanks_with_serial set_tank_cache text_eq
lasting = (refl, refl, inl refl)

-- Their frames go to the tank of the first.
resolve_tank_mixes_example :
    ((resolve_tank server (frame_names (codes "aa:bb") (codes "s1")) tanks caches).0
      ≡ matched (codes "t1"))
    × All
        (λ (x : Resolution). x ≡ matched (codes "t1"))
        (resolve_frames server laws tanks caches
          (codes "aa:bb")
          (codes "s1")
          (codes "t1")
          mixed
          next_batch)
resolve_tank_mixes_example =
    resolve_tank_mixes server laws tanks caches (codes "aa:bb") (codes "s1") (codes "t1") mixed
      next_batch refl refl refl first_by_serial first_there (refl, (refl, tt)) lasting

only_tank :
    keep_if (λ (u : Tank). text_eq u.id (codes "t1")) tanks ≡ tank (codes "t1") (codes "s1") ∷ []
unfolding text_eq
only_tank = refl

abbrev fleet : Installation
fleet = record {
  gateways = [];
  tanks =
      record {
        id = 1;
        gateway_mac = some (codes "aa:bb");
        site_id = 4;
        is_online = false;
        last_connection = none;
      }
      ∷ [];
  stations = record { id = 2; site_id = 4; last_heartbeat = none } ∷ [];
}

tank_of_fleet : length (tanks_of (codes "aa:bb") fleet.tanks) ≤ 1
unfolding text_eq
tank_of_fleet = omega arith

-- The first heartbeat of a gateway reaches the station of its tank too.
station_beats :
    (handle_status 90 (codes "aa:bb") none fleet).stations
    ≡ record { id = 2; site_id = 4; last_heartbeat = some 90 } ∷ []
unfolding handle_status beat_station text_eq
station_beats = refl

handle_status-counts_example :
    let after = handle_status 90 (codes "aa:bb") none fleet in
    IsHeard 90 (codes "aa:bb") after.gateways
    × All (IsConnected 90) (tanks_of (codes "aa:bb") after.tanks)
handle_status-counts_example =
    handle_status-counts 90 (codes "aa:bb") none fleet (omega arith) tank_of_fleet

-- The service subscribes to a topic that nothing handles.
status_unhandled : route (codes "ingestion/status") ≡ unhandled
unfolding route starts_with text_eq
status_unhandled = refl

ping_malformed : route (codes "fuel/aa:bb/ping") ≡ malformed
unfolding route starts_with text_eq parse_fuel_topic split
ping_malformed = refl

route_exact_example :
    let mac = codes "aa:bb" in
    let topic = codes "fuel/aa:bb/readings" in
    ((route topic ≡ enqueue mac) ↔ (topic ≡ fuel_topic mac (codes "readings")))
    × ((route topic ≡ heartbeat mac) ↔ (topic ≡ fuel_topic mac (codes "status")))
    × ((route topic ≡ command_ack mac) ↔ (topic ≡ ack_topic_for mac))
route_exact_example = route_exact (codes "aa:bb") (omega arith) (codes "fuel/aa:bb/readings")
