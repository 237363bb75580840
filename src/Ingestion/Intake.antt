-- ===== src/Ingestion/Intake.antt =====
-- The bounded queue of readings and its flusher in platform/fmp/ingestion/main.py, with the counters of
-- platform/fmp/ingestion/metrics_counters.py and the insert of batch_writer.py.
pub mod Accounting
use fuel_monitoring.Prelude.{
  ℕ, zero, suc, ◌+◌, ◌%◌, Bool, true, false, not, ◌&&◌, ◌||◌, List, [], ◌∷◌, ◌++◌, Text, length,
  any, ltb, leb, ◌==◌, if◌then◌else◌,
}

abbrev pub read_queue_max : ℕ
read_queue_max = 50000

abbrev pub batch_size : ℕ
batch_size = 500

-- A row of `measurements`; the other columns are in `value`.
pub record Measurement : Type 0 where
  pub tank_id : ℕ
  pub timestamp : ℕ
  pub value : ℕ

-- The counters in Redis.
pub record Counters : Type 0 where
  pub received : ℕ
  pub persisted : ℕ
  pub dropped_queue_full : ℕ
  pub batches : ℕ
  pub queue_depth : ℕ
  pub batch_latency_ms : ℕ
  pub batch_latency_ms_max : ℕ

abbrev pub record_received : ℕ → Counters → Counters
record_received n k = record k { received = k.received + n }

abbrev pub record_persisted : ℕ → Counters → Counters
record_persisted n k = record k { persisted = k.persisted + n }

abbrev pub record_dropped : ℕ → Counters → Counters
record_dropped n k = record k { dropped_queue_full = k.dropped_queue_full + n }

-- `record_batch`, which raises nothing; `up` is whether Redis answers.
unfoldable pub record_batch : (up : Bool) → (latency depth : ℕ) → Counters → Counters
record_batch up latency depth k =
    if up
    then record k {
      batches = k.batches + 1;
      queue_depth = depth;
      batch_latency_ms = latency;
      batch_latency_ms_max =
          if ltb k.batch_latency_ms_max latency then latency else k.batch_latency_ms_max;
    }
    else k

-- The queue, the process counter `_dropped_reading_frames`, the table and the counters.
pub record Intake (F : Type 0) : Type 0 where
  pub queue : List F
  pub dropped : ℕ
  pub table : List Measurement
  pub counters : Counters

-- The counts that are logged, and recorded in Redis.
abbrev pub is_reported : ℕ → Bool
is_reported n = (n == 1 || n == 100) || (n == 1000 || n % 10000 == 0)

module _ {F : Type 0} where
  -- `_enqueue_reading`. The task of `_record_overflow` adds the count of all drops; `recorded` is
  -- whether it is started and Redis answers.
  unfoldable pub enqueue_reading : (recorded : Bool) → F → Intake F → Intake F
  enqueue_reading recorded f st =
      let n = st.dropped + 1 in
      if ltb (length st.queue) read_queue_max
      then record st { queue = st.queue ++ f ∷ [] }
      else record st {
        dropped = n;
        counters = if is_reported n && recorded then record_dropped n st.counters else st.counters;
      }

  -- `while len(batch) < BATCH_SIZE` with `get_nowait`: the batch and the rest of the queue.
  unfoldable pub take_batch : ℕ → List F → List F × List F
  take_batch zero q = ([], q)
  take_batch (suc n) [] = ([], [])
  take_batch (suc n) (f ∷ q) = let (batch, rest) = take_batch n q in (f ∷ batch, rest)

-- How `_process_reading` of a frame ends, with the rows that it has put into `pending_rows`: applied,
-- left with no tank, raised on the way, or raised by the commit of its savepoint.
pub data FrameOutcome : Type 0 where
  applied : List Measurement → FrameOutcome
  no_tank : FrameOutcome
  raised : List Measurement → FrameOutcome
  savepoint_raised : List Measurement → FrameOutcome

-- `persisted += 1` stands before the commit of the savepoint.
abbrev pub persisted_by : FrameOutcome → ℕ
persisted_by (applied rows) = 1
persisted_by no_tank = 1
persisted_by (raised rows) = 0
persisted_by (savepoint_raised rows) = 1

-- A rollback of the savepoint leaves `pending_rows` as it is.
abbrev pub rows_by : FrameOutcome → List Measurement
rows_by (applied rows) = rows
rows_by no_tank = []
rows_by (raised rows) = rows
rows_by (savepoint_raised rows) = rows

abbrev pub is_row : ℕ → ℕ → Measurement → Bool
is_row tank at m = m.tank_id == tank && m.timestamp == at

-- `insert_measurements`: ON CONFLICT (tank_id, timestamp) DO NOTHING
unfoldable pub insert_measurements : List Measurement → List Measurement → List Measurement
insert_measurements [] table = table
insert_measurements (m ∷ ms) table =
    insert_measurements ms (if any (is_row m.tank_id m.timestamp) table then table else m ∷ table)

-- What the world answers to a flush.
pub record Flush (F : Type 0) : Type 0 where
  -- the outcome of each frame
  pub outcome : F → FrameOutcome
  -- whether the insert and the commit of the batch succeed
  pub committed : Bool
  -- whether the counters after it, and those of the handler, are recorded
  pub received_up : Bool
  pub persisted_up : Bool
  pub batch_up : Bool
  pub handler_received_up : Bool
  pub handler_dropped_up : Bool
  pub latency : ℕ

module _ {F : Type 0} (w : Flush F) where
  unfoldable pub run_batch : List F → ℕ × List Measurement
  run_batch [] = (0, [])
  run_batch (f ∷ fs) =
      let (n, rows) = run_batch fs in
      (persisted_by (w.outcome f) + n, rows_by (w.outcome f) ++ rows)

  -- The handler of the flush: the batch counts as received and dropped.
  abbrev pub flush_failed : ℕ → Intake F → Intake F
  flush_failed n st = record st {
    dropped = st.dropped + n;
    counters =
        if not w.handler_received_up
        then st.counters
        else if not w.handler_dropped_up
        then record_received n st.counters
        else record_dropped n (record_received n st.counters);
  }

  -- The counters after a commit, of which a failure is caught by the same handler.
  abbrev pub flush_counted : (n persisted : ℕ) → Intake F → Intake F
  flush_counted n persisted st =
      let received = record st { counters = record_received n st.counters } in
      let all = record received { counters = record_persisted persisted received.counters } in
      if not w.received_up
      then flush_failed n st
      else if not w.persisted_up
      then flush_failed n received
      else record all {
        counters = record_batch w.batch_up w.latency (length all.queue) all.counters;
      }

  abbrev pub flush_batch : List F → Intake F → Intake F
  flush_batch [] st = st
  flush_batch (f ∷ fs) st =
      let (persisted, rows) = run_batch (f ∷ fs) in
      if w.committed
      then flush_counted (length (f ∷ fs)) persisted
          (record st { table = insert_measurements rows st.table })
      else flush_failed (length (f ∷ fs)) st

  -- One round of `_flush_readings`, with the batch that it took.
  unfoldable pub flush_readings : Intake F → List F × Intake F
  flush_readings st =
      let (batch, rest) = take_batch batch_size st.queue in
      (batch, flush_batch batch (record st { queue = rest }))
