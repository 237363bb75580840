-- ===== src/Firmware/Loop/Frames.antt =====
-- Where the sampled frames go.
use fuel_monitoring.Prelude.{
  ◌∙◌, ℕ, ◌+◌, ◌≤◌, ◌≡◌, refl, inl, inr, Bool, true, false, not, ◌&&◌, Option, none, some, List, [],
  ◌∷◌, ◌++◌, length, keep_if, leb, arith, Bool-cases, if◌then◌else◌,
}
use fuel_monitoring.Firmware.Commands.{
  Command, CommandRegistry, Handled, acked, ignored, overflow_error, handle, Effect, set_interval,
  status_probe, reboot,
}
use fuel_monitoring.Firmware.Loop.{
  FrameStore, Inbound, Node, Network, Turn, next, crashed, restarted, on_command,
  on_command_entries, deliver, replay, take_effect, polled_turn, publish_reading, reading_fails,
  online, mark_connected, turn_online, store_reading, turn_offline, turn, take, answered, CallEnd,
  completed, mqtt_error, other_error, has_returned, on_call_end, after_reading, replay_crashes,
}

abbrev pub count : {F : Type 0} → (F → Bool) → List F → ℕ
count p l = length (keep_if p l)

count-append : {F : Type 0} (p : F → Bool) (l m : List F) → count p (l ++ m) ≡ count p l + count p m
count-append p [] m = omega arith
count-append p (x ∷ l) m = ground (arith, count-append p l m)

-- The buffer takes the frame of this turn without dropping or refusing one, if it is to hold it; and it
-- is empty once it was cleared.
abbrev pub BufferHolds : {F : Type 0} → (b : FrameStore F) → Option F → Node b → Type 0
BufferHolds b none n = b.snapshot (b.clear n.buffer) ≡ []
BufferHolds b (some f) n =
    (b.snapshot (b.clear n.buffer) ≡ [])
    × (b.snapshot (b.append f n.buffer) ≡ b.snapshot n.buffer ++ f ∷ [])

BufferHolds-clear :
    {F : Type 0}
    → (b : FrameStore F) (frame : Option F) (n : Node b) → BufferHolds b frame n
    → b.snapshot (b.clear n.buffer) ≡ []
BufferHolds-clear b none n h = h
BufferHolds-clear b (some f) n h = h.0

module _ {F : Type 0} (b : FrameStore F) (p : F → Bool) where
  -- The frames of a kind that were published or are buffered.
  unfoldable pub accounted : Node b → ℕ
  accounted n = count p n.readings + count p (b.snapshot n.buffer)

  -- The node after a turn, however it ends.
  abbrev pub node_of : Turn b → Node b
  node_of (next n) = n
  node_of (crashed n) = n
  node_of (restarted n) = n

  -- A publish that comes before the reading does not raise, nor does the reading itself.
  abbrev pub ReadingGoesOut : Network b → Option F → Type 0
  ReadingGoesOut w frame =
      ((w.heartbeat_due && not (has_returned w.heartbeat)) ≡ false)
      × (reading_fails b w frame ≡ false)

  abbrev pub sampled : Option F → List F
  sampled none = []
  sampled (some f) = f ∷ []

  -- Messages and effects touch neither the readings nor the buffer.
  SameFrames : Node b → Node b → Type 0
  SameFrames n m = (m.readings ≡ n.readings) × (m.buffer ≡ n.buffer)

  accounted-SameFrames : (n m : Node b) → SameFrames n m → accounted m ≡ accounted n
  unfolding SameFrames accounted
  accounted-SameFrames n m h = rw (h.0, h.1) refl

  answered-SameFrames :
      (m : Inbound) (x : Handled × CommandRegistry) (n : Node b) → SameFrames n (answered b m x n).1
  unfolding SameFrames
  answered-SameFrames m (ignored, r) n = (refl, refl)
  answered-SameFrames m (overflow_error, r) n = (refl, refl)
  answered-SameFrames m (acked a none, r) n = (refl, refl)
  answered-SameFrames m (acked a (some e), r) n = elim (Bool-cases m.ack_sent) [
    | inl y ↦ rw y (refl, refl)
    | inr k ↦ rw k (refl, refl)
  ]

  entries-SameFrames :
      (m : Inbound) (c : Option Command) (n : Node b) → SameFrames n (on_command_entries b m c n).1
  entries-SameFrames m none n = unfold SameFrames in (refl, refl)
  entries-SameFrames m (some c) n = answered-SameFrames m (handle m.now c n.registry) n

  SameFrames-trans : (n m k : Node b) → SameFrames n m → SameFrames m k → SameFrames n k
  unfolding SameFrames
  SameFrames-trans n m k g h = (h.0 ∙ g.0, h.1 ∙ g.1)

  deliver-SameFrames : (ms : List Inbound) (n : Node b) → SameFrames n (deliver b ms n).1
  unfolding deliver on_command
  deliver-SameFrames [] n = unfold SameFrames in (refl, refl)
  deliver-SameFrames (m ∷ ms) n =
      let n1 = (on_command_entries b m m.command n).1 in
      let first = entries-SameFrames m m.command n in
      let rest = deliver-SameFrames ms n1 in
      elim (Bool-cases (on_command_entries b m m.command n).0) [
        | inl y ↦ rw y (SameFrames-trans n n1 (deliver b ms n1).1 first rest)
        | inr k ↦ rw k first
      ]

  on_call_end-SameFrames : (e : CallEnd) (n : Node b) → SameFrames n (node_of (on_call_end b e n))
  unfolding SameFrames
  on_call_end-SameFrames completed n = (refl, refl)
  on_call_end-SameFrames mqtt_error n = (refl, refl)
  on_call_end-SameFrames other_error n = (refl, refl)

  take_effect-SameFrames :
      (w : Network b) (e : Option Effect) (n : Node b)
      → SameFrames n (node_of (take_effect b w e n))
  unfolding SameFrames
  take_effect-SameFrames w none n = (refl, refl)
  take_effect-SameFrames w (some (set_interval s)) n = (refl, refl)
  take_effect-SameFrames w (some status_probe) n =
      on_call_end-SameFrames w.probe (record n { pending = none })
  take_effect-SameFrames w (some reboot) n = (refl, refl)

  polled-SameFrames :
      (w : Network b) (x : Bool × Node b) → SameFrames x.1 (node_of (polled_turn b w x))
  polled-SameFrames w (false, n) = unfold SameFrames in (refl, refl)
  polled-SameFrames w (true, n) = elim (Bool-cases (has_returned w.poll)) [
    | inl y ↦ rw y (take_effect-SameFrames w n.pending n)
    | inr k ↦ rw k (on_call_end-SameFrames w.poll n)
  ]

  after_reading-SameFrames :
      (w : Network b) (x : Bool × Node b) → SameFrames x.1 (node_of (after_reading b w x))
  after_reading-SameFrames w (false, n) = unfold SameFrames in (refl, refl)
  after_reading-SameFrames w (true, n) = elim (Bool-cases (w.ping_due && not w.ping_sent)) [
    | inl y ↦ rw y (unfold SameFrames in (refl, refl))
    | inr k ↦ rw k (
        SameFrames-trans n (deliver b w.inbound n).1
          (node_of (polled_turn b w (deliver b w.inbound n))) (deliver-SameFrames w.inbound n)
          (polled-SameFrames w (deliver b w.inbound n)))
  ]

  -- What a turn with the broker adds, when its reading goes out.
  online-SameFrames :
      (w : Network b) (frame : Option F) (n : Node b)
      → ReadingGoesOut w frame
      → SameFrames (publish_reading b frame n) (node_of (online b w frame n))
  unfolding online
  online-SameFrames w frame n h =
      let sent = publish_reading b frame n in
      rw (h.0, h.1)
        (SameFrames-trans sent (deliver b w.waiting sent).1
          (node_of (after_reading b w (deliver b w.waiting sent)))
          (deliver-SameFrames w.waiting sent)
          (after_reading-SameFrames w (deliver b w.waiting sent)))

  accounted-publish :
      (frame : Option F) (n : Node b)
      → accounted (publish_reading b frame n) ≡ accounted n + count p (sampled frame)
  unfolding accounted
  accounted-publish none n = omega arith
  accounted-publish (some f) n = omega (arith, count-append p n.readings (f ∷ []))

  accounted-store :
      (frame : Option F) (n : Node b)
      → BufferHolds b frame n
      → accounted (store_reading b frame n) ≡ accounted n + count p (sampled frame)
  unfolding accounted
  accounted-store none n h = omega arith
  accounted-store (some f) n h =
      rw (h.1) (omega (arith, count-append p (b.snapshot n.buffer) (f ∷ [])))

  -- A replay that breaks off keeps the buffer, so it loses nothing.
  accounted-replay :
      (w : Network b) (n : Node b)
      → b.snapshot (b.clear n.buffer) ≡ []
      → accounted n ≤ accounted (replay b w n)
  unfolding accounted replay
  accounted-replay w n clears =
      let frames = b.snapshot n.buffer in
      elim (Bool-cases (leb (length frames) w.replayed)) [
        | inl y ↦ rw (y, clears) (omega (arith, count-append p n.readings frames))
        | inr k ↦ rw k (omega (arith, count-append p n.readings (take b w.replayed frames)))
      ]

  mark_connected-frames : (t : Turn b) → SameFrames (node_of t) (node_of (mark_connected b t))
  unfolding SameFrames
  mark_connected-frames (next n) = (refl, refl)
  mark_connected-frames (crashed n) = (refl, refl)
  mark_connected-frames (restarted n) = (refl, refl)

  marked_online :
      (w : Network b) (frame : Option F) (n : Node b)
      → ReadingGoesOut w frame
      → accounted (node_of (mark_connected b (online b w frame n)))
        ≡ accounted n + count p (sampled frame)
  marked_online w frame n h =
      accounted-SameFrames (node_of (online b w frame n))
        (node_of (mark_connected b (online b w frame n)))
        (mark_connected-frames (online b w frame n))
      ∙ accounted-SameFrames (publish_reading b frame n) (node_of (online b w frame n))
          (online-SameFrames w frame n h)
      ∙ accounted-publish frame n

  online_accounted :
      (w : Network b) (frame : Option F) (n : Node b)
      → w.status_sent ≡ true
      → replay_crashes b w n ≡ false
      → ReadingGoesOut w frame
      → BufferHolds b frame n
      → accounted n + count p (sampled frame) ≤ accounted (node_of (turn_online b w frame n))
  unfolding turn_online
  online_accounted w frame n status replays h holds =
      elim n.was_connected
        as (λ was.
          accounted n + count p (sampled frame)
          ≤ accounted (
              node_of (
                if was
                then mark_connected b (online b w frame n)
                else if not w.status_sent
                then crashed n
                else if replay_crashes b w n
                then crashed (replay b w n)
                else mark_connected b (online b w frame (replay b w n))))) [
                  | true ↦ omega (arith, marked_online w frame n h)
                  | false ↦
                      simp (status, replays)
                        (omega (
                          arith,
                          marked_online w frame (replay b w n) h,
                          accounted-replay w n (BufferHolds-clear b frame n holds),
                        ))
                ]

  offline_accounted :
      (w : Network b) (frame : Option F) (n : Node b)
      → BufferHolds b frame n
      → accounted (node_of (turn_offline b w frame n)) ≡ accounted n + count p (sampled frame)
  unfolding turn_offline
  offline_accounted w frame n holds =
      accounted-SameFrames (store_reading b frame n)
        (record (store_reading b frame n) { was_connected = false; connected = w.connects })
        (unfold SameFrames in (refl, refl))
      ∙ accounted-store frame n holds

  -- A turn loses no frame when neither the publish of the reading nor one before it raises - except that
  -- a replay may break off on an `OSError` - and when the buffer, in this turn, neither drops nor refuses
  -- a frame and is empty once cleared: of every kind of frames, as many are published or buffered after
  -- it as before, with the sampled one. A frame of a replay that broke off may count twice.
  pub turn-accounted :
      (w : Network b) (frame : Option F) (n : Node b)
      → w.status_sent ≡ true
      → replay_crashes b w n ≡ false
      → ReadingGoesOut w frame
      → BufferHolds b frame n
      → accounted n + count p (sampled frame) ≤ accounted (node_of (turn b w frame n))
  unfolding turn
  turn-accounted w frame n status replays h holds =
      elim n.connected
        as (λ on.
          accounted n + count p (sampled frame)
          ≤ accounted
              (node_of (if on then turn_online b w frame n else turn_offline b w frame n))) [
                | true ↦ online_accounted w frame n status replays h holds
                | false ↦ omega (arith, offline_accounted w frame n holds)
              ]
