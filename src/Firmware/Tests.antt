-- ===== src/Firmware/Tests.antt =====
-- A gateway at work: frames on the wire and commands, and the theorems at them.
use fuel_monitoring.Prelude.{
  true, false, some, ℕ, ◌+◌, ◌≤◌, ◌≡◌, refl, none, List, [], ◌∷◌, ◌++◌, arith, Text, codes, text_eq,
}
use fuel_monitoring.Firmware.Modbus.{
  ok, err, ModbusError, frame_with_crc, parse_response, parse_checked, register_values, crc16,
  crc_from, crc_rounds, crc_round, body_of, trailer_of,
}
use fuel_monitoring.Firmware.Modbus.Frames.{response_body, parse_response-frame_with_crc}
use fuel_monitoring.Firmware.Modbus.Corruption.{corruption_refused}
use fuel_monitoring.Firmware.Buffer.{
  Json, lines_of, read, splitlines, snapshot, append, trim, load_lines, lstrip, write_lines,
  keep_newest,
}
use fuel_monitoring.Firmware.Buffer.Lines.{joined, printed, lines_of_all}
use fuel_monitoring.Firmware.Commands.{
  CommandRegistry, converted, refused, pos, handle, cmd_type, acked, ack, executed, duplicate,
  reboot, knows, prune, is_unsupported,
}
use fuel_monitoring.Firmware.Commands.Once.{
  command, handle_once, run, Call, IsApplied, asks_restart,
}
use fuel_monitoring.Firmware.Loop.{
  FrameStore, Node, Network, on_command, turn, completed, mqtt_error, file_buffer,
}
use fuel_monitoring.Firmware.Loop.Lost.{inbound_of, on_command_lost}
use fuel_monitoring.Firmware.Loop.Frames.{accounted, node_of, turn-accounted}
use fuel_monitoring.Firmware.Mqtt.{
  publish_packet, framed, read_packet, packet, index_error, poll_once,
}
use fuel_monitoring.Firmware.Mqtt.Framing.{read_packet-framed}
use fuel_monitoring.Firmware.Mqtt.Incoming.{poll_once-raises}

-- slave 1 answers with two registers
abbrev registers : List ℕ
registers = 300 ∷ 65535 ∷ []

parse_response-frame_with_crc_example :
    parse_response (frame_with_crc (response_body 1 registers)) 1 2 ≡ ok registers
parse_response-frame_with_crc_example =
    parse_response-frame_with_crc 1 registers (omega arith) (omega arith, (omega arith, tt))
      (omega arith)

-- The request of the Modbus guide for the registers 0 and 1 of slave 1 ends in the bytes 0xc4 and 0x0b.
guide_frame : frame_with_crc (1 ∷ 3 ∷ 0 ∷ 0 ∷ 0 ∷ 2 ∷ []) ≡ 1 ∷ 3 ∷ 0 ∷ 0 ∷ 0 ∷ 2 ∷ 0xC4 ∷ 0x0B ∷ []
unfolding frame_with_crc crc16 crc_from crc_rounds crc_round
guide_frame = refl

-- one register of slave 1, the value 300
abbrev head : List ℕ
head = 1 ∷ 3 ∷ 2 ∷ 1 ∷ []

abbrev tail : List ℕ
tail = 0xB8 ∷ 0x09 ∷ []

good_frame : parse_response (head ++ 44 ∷ tail) 1 1 ≡ ok (300 ∷ [])
unfolding parse_response parse_checked body_of trailer_of crc16 crc_from crc_rounds crc_round
    register_values
good_frame = refl

corruption_refused_example : (e : ModbusError) × (parse_response (head ++ 45 ∷ tail) 1 1 ≡ err e)
corruption_refused_example =
    corruption_refused 44 45 (omega arith) (omega arith) (omega arith) head tail (300 ∷ []) 1 1
      (omega arith, (omega arith, (omega arith, (omega arith, tt))))
      (omega arith, (omega arith, tt)) good_frame

abbrev registry : CommandRegistry
registry = record { max_recent = 1; recent = (codes "old", 99000) ∷ [] }

abbrev id : Text
id = codes "7"

abbrev other_call : Call
other_call = record { now = 100200; command = command (codes "new") (codes "ping") refused }

handle_once_example :
    let (first, r1) = handle 100000 (command (b'c' ∷ id) (codes "reboot") refused) registry in
    let after = run (other_call ∷ []) r1 in
    IsApplied (b'c' ∷ id) (some reboot) first
    × ((handle 100300 (command (b'c' ∷ id) (codes "reboot") refused) after).0
        ≡ acked (ack (b'c' ∷ id) executed duplicate) none)
unfolding cmd_type text_eq knows prune
handle_once_example =
    handle_once 100000 100300 b'c' b'r' b'r' id (codes "eboot") (codes "eboot") refused refused
      (some reboot) (other_call ∷ []) registry refl (asks_restart refused) refl
      ((omega arith, refl), tt) (omega arith)

-- Frames that are their own JSON, in a buffer of two frames and twelve bytes.
abbrev json : Json Text
json = record { dumps = λ f. f; loads = λ s. some s }

abbrev frames : List Text
frames = codes "[1]" ∷ codes "[2]" ∷ []

lines_of_all_example :
    joined (lines_of 8 (codes "[1]" ++ 10 ∷ codes "[2]"))
    ≡ printed (codes "[1]" ++ 10 ∷ codes "[2]")
lines_of_all_example = lines_of_all 8 (codes "[1]" ++ 10 ∷ codes "[2]") (omega arith)

-- A buffer without bounds.
abbrev plain_buffer : FrameStore ℕ
plain_buffer = record {
  Store = List ℕ;
  append = λ f s. s ++ f ∷ [];
  snapshot = λ s. s;
  clear = λ s. [];
}

abbrev node : Node plain_buffer
node = record {
  connected = true;
  was_connected = false;
  registry = registry;
  pending = none;
  buffer = 7 ∷ 8 ∷ [];
  sample_interval = 30;
  readings = [];
  acks = [];
}

-- The buffer of the program, for at most three frames and twelve bytes, with two frames in it.
abbrev buffer : FrameStore Text
buffer = file_buffer json 3 12 true true true

abbrev buffered_node : Node buffer
buffered_node = record {
  connected = true;
  was_connected = false;
  registry = registry;
  pending = none;
  buffer = some (codes "[1]" ++ 10 ∷ codes "[2]" ++ 10 ∷ []);
  sample_interval = 30;
  readings = [];
  acks = [];
}

-- The second frame of the replay does not go out, the rest does.
abbrev network : Network buffer
network = record {
  status_sent = true;
  replayed = 1;
  replay_error = mqtt_error;
  heartbeat_due = true;
  heartbeat = completed;
  reading = completed;
  waiting = [];
  ping_due = false;
  ping_sent = true;
  inbound = [];
  poll = completed;
  probe = completed;
  connects = true;
}

turn-accounted_example :
    accounted buffer (λ f. true) buffered_node + 1
    ≤ accounted buffer
        (λ f. true)
        (node_of buffer (λ f. true) (turn buffer network (some (codes "[3]")) buffered_node))
unfolding lines_of read splitlines snapshot append trim load_lines lstrip write_lines keep_newest
turn-accounted_example =
    turn-accounted buffer (λ f. true) network (some (codes "[3]")) buffered_node refl refl
      (refl, refl) (refl, refl)

ping_supported : is_unsupported (cmd_type (codes "ping")) ≡ false
unfolding cmd_type text_eq
ping_supported = refl

on_command_lost_example :
    let c = command (codes "new") (codes "ping") (converted (pos 1)) in
    let n1 = (on_command plain_buffer (inbound_of plain_buffer 100000 c false) node).1 in
    let n2 = (on_command plain_buffer (inbound_of plain_buffer 100060 c true) n1).1 in
    (n1.pending ≡ none)
    × (n1.acks ≡ [])
    × (n2.pending ≡ none)
    × (n2.acks ≡ ack (codes "new") executed duplicate ∷ [])
on_command_lost_example =
    on_command_lost plain_buffer 100000 100060 b'n' b'p' (codes "ew") (codes "ing")
      (converted (pos 1)) node (unfold knows prune text_eq in refl) ping_supported (omega arith)

read_packet-framed_example :
    read_packet false (framed 0x30 (1 ∷ 2 ∷ 3 ∷ []) ++ 0xD0 ∷ 0 ∷ [])
    ≡ packet (0x30 ∷ 1 ∷ 2 ∷ 3 ∷ []) (0xD0 ∷ 0 ∷ [])
read_packet-framed_example = read_packet-framed false 0x30 (1 ∷ 2 ∷ 3 ∷ []) (0xD0 ∷ 0 ∷ [])

-- A command on the topic "fuel/aa/command", in ASCII.
poll_once-raises_example :
    poll_once
      (λ s. true)
      false
      (publish_packet 7 (codes "fuel/aa/command") (codes "{\"type\": \"ping\"}") ++ [])
    ≡ index_error
poll_once-raises_example =
    poll_once-raises (λ s. true) false 7 b'f' (codes "uel/aa/command")
      (codes "{\"type\": \"ping\"}") [] (omega arith) (omega arith)
