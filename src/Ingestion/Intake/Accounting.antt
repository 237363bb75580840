-- ===== src/Ingestion/Intake/Accounting.antt =====
-- Where the frames of a run go, and what the counters say of them.
use fuel_monitoring.Prelude.{
  ap, sym, ◌∙◌, ℕ, zero, suc, ◌+◌, ◌-◌, ◌*◌, ◌≤◌, ◌≡◌, refl, inl, inr, Bool, true, List, [], ◌∷◌,
  ◌++◌, length, length-append, All, arith, Bool-cases, ltb, if◌then◌else◌,
}
use mathlib.Core.List.{append_assoc, append-nil}
use fuel_monitoring.Ingestion.Intake.{
  Intake, Flush, FrameOutcome, applied, no_tank, raised, savepoint_raised, read_queue_max,
  batch_size, enqueue_reading, take_batch, run_batch, persisted_by, insert_measurements,
  record_batch, flush_readings, flush_batch,
}

-- A frame that arrives, or a round of the flusher.
pub data Event (F : Type 0) : Type 0 where
  arrive : (recorded : Bool) → F → Event F
  flush : Flush F → Event F

empty_queue : {A : Type 0} (l : List A) → length l ≤ 0 → l ≡ []
empty_queue [] h = refl
empty_queue (x ∷ l) h = absurd (omega arith)

one_frame : (o : FrameOutcome) → persisted_by o ≤ 1
one_frame (applied rows) = omega arith
one_frame no_tank = omega arith
one_frame (raised rows) = omega arith
one_frame (savepoint_raised rows) = omega arith

module _ {F : Type 0} where
  -- The frame if the queue takes it.
  abbrev pub accepted_of : F → Intake F → List F
  accepted_of f st = if ltb (length st.queue) read_queue_max then f ∷ [] else []

  abbrev pub step : Event F → Intake F → (List F × List F) × Intake F
  step (arrive recorded f) st = ((accepted_of f st, []), enqueue_reading recorded f st)
  step (flush w) st = let (taken, st') = flush_readings w st in (([], taken), st')

  -- A run: the frames that were accepted, those that were taken by the flusher, the state.
  unfoldable pub run : List (Event F) → Intake F → (List F × List F) × Intake F
  run [] st = (([], []), st)
  run (e ∷ es) st =
      let ((a, t), st1) = step e st in
      let ((as', ts), st2) = run es st1 in ((a ++ as', t ++ ts), st2)

  take_batch-append : (n : ℕ) (q : List F) → (take_batch n q).0 ++ (take_batch n q).1 ≡ q
  unfolding take_batch
  take_batch-append zero q = refl
  take_batch-append (suc n) [] = refl
  take_batch-append (suc n) (f ∷ q) = ap (λ (l : List F). f ∷ l) (take_batch-append n q)

  length-take_batch : (n : ℕ) (q : List F) → length (take_batch n q).1 ≡ length q - n
  unfolding take_batch
  length-take_batch zero q = omega arith
  length-take_batch (suc n) [] = omega arith
  length-take_batch (suc n) (f ∷ q) = omega (arith, length-take_batch n q)

  -- A flush leaves the queue without its batch, however it ends.
  queue-flush_batch :
      (w : Flush F) (batch : List F) (st : Intake F) → (flush_batch w batch st).queue ≡ st.queue
  queue-flush_batch w [] st = refl
  queue-flush_batch w (f ∷ fs) st = ground arith

  queue-flush :
      (w : Flush F) (st : Intake F)
      → ((flush_readings w st).0 ++ (flush_readings w st).1.queue ≡ st.queue)
        × (length (flush_readings w st).1.queue ≡ length st.queue - batch_size)
  unfolding flush_readings
  queue-flush w st =
      let (batch, rest) = take_batch batch_size st.queue in
      rw
        (queue-flush_batch w (take_batch batch_size st.queue).0
          (record st { queue = (take_batch batch_size st.queue).1 }))
        (take_batch-append batch_size st.queue, length-take_batch batch_size st.queue)

  queue-step :
      (e : Event F) (st : Intake F)
      → let ((a, t), st') = step e st in
        (t ++ st'.queue ≡ st.queue ++ a)
        × (length st.queue ≤ read_queue_max → length st'.queue ≤ read_queue_max)
  unfolding enqueue_reading
  queue-step (arrive recorded f) st = elim (Bool-cases (ltb (length st.queue) read_queue_max)) [
    | inl y ↦ rw y (refl, λ h. ground (arith, length-append st.queue (f ∷ []), y))
    | inr n ↦ rw n (sym (append-nil st.queue), λ h. h)
  ]
  queue-step (flush w) st =
      let (order, short) = queue-flush w st in
      (order ∙ sym (append-nil st.queue), λ h. omega (arith, short))

  -- Frames leave the queue in the order in which they were accepted, and none is lost in between: what
  -- the flusher took, with what is still queued, is what was queued, with what was accepted. The queue
  -- stays in its bound.
  pub run-in_order :
      (es : List (Event F)) (st : Intake F)
      → length st.queue ≤ read_queue_max
      → let ((accepted, taken), st') = run es st in
        (taken ++ st'.queue ≡ st.queue ++ accepted) × (length st'.queue ≤ read_queue_max)
  unfolding run
  run-in_order [] st h = (sym (append-nil st.queue), h)
  run-in_order (e ∷ es) st h =
      let ((a, t), st1) = step e st in
      let ((as', ts), st2) = run es st1 in
      let (first, bound) = queue-step e st in
      let (later, bounded) = run-in_order es st1 (bound h) in
      (
        append_assoc t ts st2.queue
            ∙ ap (λ (l : List F). t ++ l) later
            ∙ sym (append_assoc t st1.queue as')
            ∙ ap (λ (l : List F). l ++ as') first
            ∙ append_assoc st.queue a as',
        bounded,
      )

  -- With no arrivals a flusher with enough rounds empties the queue, however its flushes end.
  unfoldable pub flushes : List (Flush F) → Intake F → Intake F
  flushes [] st = st
  flushes (w ∷ ws) st = flushes ws (flush_readings w st).1

  pub flushes-drain :
      (ws : List (Flush F)) (st : Intake F)
      → length st.queue ≤ batch_size * length ws
      → (flushes ws st).queue ≡ []
  unfolding flushes
  flushes-drain [] st h = empty_queue st.queue (omega arith)
  flushes-drain (w ∷ ws) st h =
      flushes-drain ws (flush_readings w st).1 (omega (arith, (queue-flush w st).1))

  persisted-run_batch : (w : Flush F) (fs : List F) → (run_batch w fs).0 ≤ length fs
  unfolding run_batch
  persisted-run_batch w [] = omega arith
  persisted-run_batch w (f ∷ fs) = omega (arith, persisted-run_batch w fs, one_frame (w.outcome f))

  abbrev pub IsCounted : Intake F → Type 0
  IsCounted st = st.counters.persisted ≤ st.counters.received

  flush_batch-IsCounted :
      (w : Flush F) (batch : List F) (st : Intake F)
      → IsCounted st
      → IsCounted (flush_batch w batch st)
  unfolding record_batch
  flush_batch-IsCounted w [] st h = h
  flush_batch-IsCounted w (f ∷ fs) st h = ground (arith, persisted-run_batch w (f ∷ fs))

  -- The counter of persisted frames never passes that of received frames, whatever fails on the way.
  pub run-IsCounted : (es : List (Event F)) (st : Intake F) → IsCounted st → IsCounted (run es st).1
  unfolding run
  run-IsCounted [] st h = h
  run-IsCounted (arrive recorded f ∷ es) st h =
      run-IsCounted es (enqueue_reading recorded f st) (unfold enqueue_reading in ground arith)
  run-IsCounted (flush w ∷ es) st h = run-IsCounted es (flush_readings w st).1 (
      unfold flush_readings in
      flush_batch-IsCounted w (take_batch batch_size st.queue).0
        (record st { queue = (take_batch batch_size st.queue).1 }) h)

  -- No frame of the batch finds a tank.
  abbrev pub NoneMatched : Flush F → List F → Type 0
  NoneMatched w fs = All (λ f. w.outcome f ≡ no_tank) fs

  run_batch-unmatched :
      (w : Flush F) (fs : List F) → NoneMatched w fs → run_batch w fs ≡ (length fs, [])
  unfolding run_batch
  run_batch-unmatched w [] h = refl
  run_batch-unmatched w (f ∷ fs) h = ground (arith, run_batch-unmatched w fs h.1)

  flush_batch-unmatched :
      (w : Flush F) (fs : List F) (st : Intake F)
      → NoneMatched w fs
      → w.committed ≡ true
      → w.received_up ≡ true
      → w.persisted_up ≡ true
      → let st' = flush_batch w fs st in
        (st'.table ≡ st.table)
        × (st'.counters.received ≡ st.counters.received + length fs)
        × (st'.counters.persisted ≡ st.counters.persisted + length fs)
  unfolding record_batch
  flush_batch-unmatched w [] st h c r p = (refl, omega arith, omega arith)
  flush_batch-unmatched w (f ∷ fs) st h c r p =
      rw (run_batch-unmatched w (f ∷ fs) h, c, r, p)
        (unfold insert_measurements in refl, ground arith, ground arith)

  -- A flush that goes well counts every frame of its batch as received and as persisted, also when no
  -- frame belongs to a known tank and the table of measurements stays as it was.
  pub flush_readings-unmatched :
      (w : Flush F) (st : Intake F)
      → NoneMatched w (flush_readings w st).0
      → w.committed ≡ true
      → w.received_up ≡ true
      → w.persisted_up ≡ true
      → let (batch, st') = flush_readings w st in
        (st'.table ≡ st.table)
        × (st'.counters.received ≡ st.counters.received + length batch)
        × (st'.counters.persisted ≡ st.counters.persisted + length batch)
  unfolding flush_readings
  flush_readings-unmatched w st h c r p =
      flush_batch-unmatched w (take_batch batch_size st.queue).0
        (record st { queue = (take_batch batch_size st.queue).1 }) h c r p
