-- ===== src/Firmware/Loop.antt =====
-- The duty cycle of firmware/main.py: what one turn of `run` does with a sampled frame, the offline
-- buffer and the commands that come in. What the network answers is an argument of a turn.
pub mod Frames
pub mod Lost
use fuel_monitoring.Prelude.{
  ℕ, Bool, true, false, not, ◌&&◌, ◌||◌, Option, none, some, List, [], ◌∷◌, ◌++◌, Text, length, ltb,
  leb, if◌then◌else◌,
}
use fuel_monitoring.Firmware.Buffer.{Json}
use fuel_monitoring.Firmware.Buffer
use fuel_monitoring.Firmware.Commands.{
  Command, CommandRegistry, Ack, Effect, status_probe, reboot, set_interval, Handled, acked,
  ignored, overflow_error, handle,
}

-- The frame buffer as the loop uses it.
pub record FrameStore (F : Type 0) : Type 1 where
  pub Store : Type 0
  pub append : F → Store → Store
  pub snapshot : Store → List F
  pub clear : Store → Store

-- How a call of the MQTT client ends: it returns, it raises an `OSError`, which `MqttError` is, or it
-- raises what no handler catches, as `_dispatch` does on a message that it cannot take apart.
pub data CallEnd : Type 0 where
  completed mqtt_error other_error : CallEnd

abbrev pub has_returned : CallEnd → Bool
has_returned completed = true
has_returned mqtt_error = false
has_returned other_error = false

-- A message on the command topic: its time, what `json.loads` makes of it, and whether the
-- acknowledgement could be published.
pub record Inbound : Type 0 where
  pub now : ℕ
  pub command : Option Command
  pub ack_sent : Bool

module _ {F : Type 0} (b : FrameStore F) where
  pub record Node : Type 0 where
    pub connected : Bool
    pub was_connected : Bool
    pub registry : CommandRegistry
    pub pending : Option Effect
    pub buffer : b.Store
    pub sample_interval : ℕ
    -- what was published on the topics of readings and of acknowledgements, oldest first
    pub readings : List F
    pub acks : List Ack

  -- What the network does in a turn. `replayed` is the number of buffered frames that are published
  -- before a publish raises, and `replay_error` how it does. `waiting` are the messages that come while
  -- the heartbeat and the reading wait for their acknowledgements, `inbound` those of the poll.
  pub record Network : Type 0 where
    pub status_sent : Bool
    pub replayed : ℕ
    pub replay_error : CallEnd
    pub heartbeat_due : Bool
    pub heartbeat : CallEnd
    pub reading : CallEnd
    pub waiting : List Inbound
    pub ping_due : Bool
    pub ping_sent : Bool
    pub inbound : List Inbound
    pub poll : CallEnd
    pub probe : CallEnd
    pub connects : Bool

  -- The end of a turn: the loop goes on, an exception leaves `run`, or the device restarts.
  pub data Turn : Type 0 where
    next crashed restarted : Node → Turn

  -- `on_command`, once the registry has answered; false is an exception that leaves it.
  abbrev pub answered : Inbound → Handled × CommandRegistry → Node → Bool × Node
  answered m (ignored, r) n = (true, record n { registry = r })
  answered m (overflow_error, r) n = (false, record n { registry = r })
  answered m (acked a none, r) n =
      (true, record n { registry = r; acks = if m.ack_sent then n.acks ++ a ∷ [] else n.acks })
  answered m (acked a (some e), r) n = (
    true,
    if m.ack_sent
        then record n { registry = r; acks = n.acks ++ a ∷ []; pending = some e }
        else record n { registry = r },
  )

  abbrev pub on_command_entries : Inbound → Option Command → Node → Bool × Node
  on_command_entries m none n = (true, n)
  on_command_entries m (some c) n = answered m (handle m.now c n.registry) n

  -- `on_command`
  unfoldable pub on_command : Inbound → Node → Bool × Node
  on_command m n = on_command_entries m m.command n

  -- the messages of one poll
  unfoldable pub deliver : List Inbound → Node → Bool × Node
  deliver [] n = (true, n)
  deliver (m ∷ ms) n =
      let (fine, n1) = on_command m n in
      let rest = deliver ms n1 in if fine then rest else (false, n1)

  abbrev pub take : ℕ → List F → List F
  take ℕ.zero l = []
  take (ℕ.suc k) [] = []
  take (ℕ.suc k) (x ∷ l) = x ∷ take k l

  -- The replay of the buffer after a connect, which clears it when every frame went out.
  unfoldable pub replay : Network → Node → Node
  replay w n =
      let frames = b.snapshot n.buffer in
      if leb (length frames) w.replayed
      then record n { readings = n.readings ++ frames; buffer = b.clear n.buffer }
      else record n { readings = n.readings ++ take w.replayed frames }

  -- The handler of the `try`.
  abbrev pub disconnect : Node → Node
  disconnect n = record n { connected = false }

  abbrev pub on_call_end : CallEnd → Node → Turn
  on_call_end completed n = next n
  on_call_end mqtt_error n = next (disconnect n)
  on_call_end other_error n = crashed n

  -- The pending effect of a turn, the last step under the `try`.
  abbrev pub take_effect : Network → Option Effect → Node → Turn
  take_effect w none n = next n
  take_effect w (some (set_interval s)) n = next (record n { pending = none; sample_interval = s })
  take_effect w (some status_probe) n = let m = record n { pending = none } in on_call_end w.probe m
  take_effect w (some reboot) n = restarted (disconnect (record n { pending = none }))

  abbrev pub polled_turn : Network → Bool × Node → Turn
  polled_turn w (false, n) = crashed n
  polled_turn w (true, n) =
      if has_returned w.poll then take_effect w n.pending n else on_call_end w.poll n

  abbrev pub publish_reading : Option F → Node → Node
  publish_reading none n = n
  publish_reading (some f) n = record n { readings = n.readings ++ f ∷ [] }

  abbrev pub reading_fails : Network → Option F → Bool
  reading_fails w none = false
  reading_fails w (some f) = not (has_returned w.reading)

  -- What follows the publish of the reading, and the messages that it met
  abbrev pub after_reading : Network → Bool × Node → Turn
  after_reading w (false, n) = crashed n
  after_reading w (true, n) =
      if w.ping_due && not w.ping_sent
      then next (disconnect n)
      else polled_turn w (deliver w.inbound n)

  -- A publish that raises, after the messages that it met; one of these may raise first.
  abbrev pub after_failure : CallEnd → Bool × Node → Turn
  after_failure e (false, n) = crashed n
  after_failure e (true, n) = on_call_end e n

  -- The body of the `try`, up to the first publish that raises.
  unfoldable pub online : Network → Option F → Node → Turn
  online w frame n =
      if w.heartbeat_due && not (has_returned w.heartbeat)
      then after_failure w.heartbeat (deliver w.waiting n)
      else if reading_fails w frame
      then after_failure w.reading (deliver w.waiting n)
      else after_reading w (deliver w.waiting (publish_reading frame n))

  abbrev pub mark_connected : Turn → Turn
  mark_connected (next n) = next (record n { was_connected = true })
  mark_connected (crashed n) = crashed n
  mark_connected (restarted n) = restarted n

  -- A replay that an exception leaves which it does not catch
  abbrev pub replay_crashes : Network → Node → Bool
  replay_crashes w n =
      ltb w.replayed (length (b.snapshot n.buffer))
      && elim w.replay_error [ other_error ↦ true | _ ↦ false ]

  -- A turn with the broker: the status of a new connection is published outside of the `try`.
  unfoldable pub turn_online : Network → Option F → Node → Turn
  turn_online w frame n =
      if n.was_connected
      then mark_connected (online w frame n)
      else if not w.status_sent
      then crashed n
      else if replay_crashes w n
      then crashed (replay w n)
      else mark_connected (online w frame (replay w n))

  abbrev pub store_reading : Option F → Node → Node
  store_reading none n = n
  store_reading (some f) n = record n { buffer = b.append f n.buffer }

  -- A turn without it: the frame is buffered, and a connect is tried.
  unfoldable pub turn_offline : Network → Option F → Node → Turn
  turn_offline w frame n =
      next (record (store_reading frame n) { was_connected = false; connected = w.connects })

  -- One turn of the loop, with the frame that was sampled.
  unfoldable pub turn : Network → Option F → Node → Turn
  turn w frame n = if n.connected then turn_online w frame n else turn_offline w frame n

-- The buffer of the gateway as such a store: firmware/frame_buffer.py, with whether its file opens for
-- appending, opens for writing, and can be removed.
abbrev pub file_buffer :
    {F : Type 0}
    → Json F
    → (max_frames max_bytes : ℕ) → (opened writable removable : Bool) → FrameStore F
file_buffer json max_frames max_bytes opened writable removable = record {
  Store = Option Text;
  append = λ f file. (Buffer.append json max_frames max_bytes opened writable f file).1;
  snapshot = λ file. Buffer.snapshot json file;
  clear = λ file. if removable then none else file;
}
