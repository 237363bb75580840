-- ===== src/Firmware/Mqtt.antt =====
-- The packets of firmware/mqtt_client.py: what it writes, and what it makes of the bytes that it reads.
-- The stream of the socket is the list of its bytes, and whether the peer has closed it after them.
pub mod Framing
pub mod Incoming
use fuel_monitoring.Prelude.{
  ℕ, zero, suc, ◌+◌, ◌*◌, ◌/◌, ◌%◌, Bool, true, false, Option, none, some, List, [], ◌∷◌, ◌++◌,
  length, get_elem?, ◌==◌, if◌then◌else◌,
}
use fuel_monitoring.Prelude.Bytes.{take, drop, read_exactly}

-- The `while` loop of `_encode_remaining_length`, with fuel
unfoldable pub encode_from : (fuel : ℕ) → ℕ → List ℕ
encode_from zero n = []
encode_from (suc f) n =
    let rest = encode_from f (n / 128) in
    if n / 128 == 0 then (n % 128) ∷ [] else (n % 128 + 128) ∷ rest

-- `_encode_remaining_length`
unfoldable pub encode_remaining_length : ℕ → List ℕ
encode_remaining_length n = encode_from (n + 1) n

-- `to_bytes(2, "big")`, for a number below 65536
unfoldable pub two_bytes : ℕ → List ℕ
two_bytes n = (n / 256) ∷ (n % 256) ∷ []

-- `_encode_utf8`; a text is its bytes.
unfoldable pub encode_utf8 : List ℕ → List ℕ
encode_utf8 text = two_bytes (length text) ++ text

unfoldable pub framed : (header : ℕ) → List ℕ → List ℕ
framed header body = header ∷ (encode_remaining_length (length body) ++ body)

-- `_next_pid`
unfoldable pub next_pid : ℕ → ℕ
next_pid pid = pid % 65535 + 1

-- What `publish` sends, with QoS 1 and this packet id
unfoldable pub publish_packet : (pid : ℕ) → (topic message : List ℕ) → List ℕ
publish_packet pid topic message = framed 0x32 (encode_utf8 topic ++ (two_bytes pid ++ message))

abbrev encode_option : Option (List ℕ) → List ℕ
encode_option none = []
encode_option (some t) = encode_utf8 t

abbrev flag : ℕ → Option (List ℕ) → ℕ
flag bit none = 0
flag bit (some t) = bit

-- `_send_connect`
unfoldable pub connect_packet :
    (keepalive : ℕ) → (client_id : List ℕ) → (username password : Option (List ℕ)) → List ℕ
connect_packet keepalive client_id username password = framed 0x10 (
    encode_utf8 (0x4D ∷ 0x51 ∷ 0x54 ∷ 0x54 ∷ [])
    ++ (4
        ∷ (2 + flag 0x40 password + flag 0x80 username)
        ∷ (two_bytes keepalive
            ++ (encode_utf8 client_id ++ (encode_option username ++ encode_option password)))))

-- `subscribe`
unfoldable pub subscribe_packet : (pid : ℕ) → (topic : List ℕ) → (qos : ℕ) → List ℕ
subscribe_packet pid topic qos = framed 0x82 (two_bytes pid ++ (encode_utf8 topic ++ qos ∷ []))

-- How `_read_packet` ends: None for a header that does not come, the packet and the rest of the stream,
-- `MqttError("connection lost")`, or a timeout inside a packet.
pub data Reading : Type 0 where
  nothing connection_lost timed_out : Reading
  packet : (bytes rest : List ℕ) → Reading

-- A `recv` on a stream that has no more bytes, inside a packet
abbrev pub short_read : (closed : Bool) → Reading
short_read closed = if closed then connection_lost else timed_out

pub data Length : Type 0 where
  cut : Length
  counted : ℕ → List ℕ → Length

-- The loop that reads the remaining length
unfoldable pub read_length : (remaining multiplier : ℕ) → List ℕ → Length
read_length remaining multiplier [] = cut
read_length remaining multiplier (b ∷ s) =
    let total = remaining + b % 128 * multiplier in
    let rest = read_length total (multiplier * 128) s in
    if b / 128 % 2 == 0 then counted total s else rest

abbrev pub with_body : Bool → ℕ → Option (List ℕ × List ℕ) → Reading
with_body closed header none = short_read closed
with_body closed header (some (body, rest)) = packet (header ∷ body) rest

abbrev pub with_length : Bool → ℕ → Length → Reading
with_length closed header cut = short_read closed
with_length closed header (counted n s) = with_body closed header (read_exactly n s)

-- `_read_packet`: the header byte and the body, without the length between them
unfoldable pub read_packet : (closed : Bool) → List ℕ → Reading
read_packet closed [] = if closed then connection_lost else nothing
read_packet closed (header ∷ s) = with_length closed header (read_length 0 1 s)

abbrev both_bytes : Option ℕ → Option ℕ → Option ℕ
both_bytes (some a) (some b) = some (a * 256 + b)
both_bytes _ _ = none

-- `_read_uint16`; none is an `IndexError`
unfoldable pub read_uint16 : List ℕ → ℕ → Option ℕ
read_uint16 p offset = both_bytes (get_elem? p offset) (get_elem? p (offset + 1))

-- How `_dispatch` ends: the callback with its topic and payload, after the bytes of an acknowledgement;
-- a pong; nothing; or an exception that is no `OSError`.
pub data Dispatched : Type 0 where
  called : (puback : Option (Option ℕ × Option ℕ)) → (topic payload : List ℕ) → Dispatched
  pong ignored index_error unicode_error : Dispatched

-- `utf8` is whether a strict decoding accepts the bytes.
module _ (utf8 : List ℕ → Bool) where
  abbrev pub with_payload : ℕ → List ℕ → (topic : List ℕ) → ℕ → Dispatched
  with_payload qos p topic offset =
      called (if qos == 1 then some (get_elem? p 2, get_elem? p 3) else none) topic (drop offset p)

  abbrev pub with_pid : ℕ → List ℕ → List ℕ → ℕ → Option ℕ → Dispatched
  with_pid qos p topic offset none = index_error
  with_pid qos p topic offset (some pid) = with_payload qos p topic (offset + 2)

  abbrev pub with_topic : ℕ → List ℕ → Option ℕ → Dispatched
  with_topic qos p none = index_error
  with_topic qos p (some n) =
      let topic = take n (drop 4 p) in
      if utf8 topic
      then (if qos == 0
          then with_payload qos p topic (4 + n)
          else with_pid qos p topic (4 + n) (read_uint16 p (4 + n)))
      else unicode_error

  -- `_dispatch`, on a packet that is not empty
  unfoldable pub dispatch : List ℕ → Dispatched
  dispatch [] = index_error
  dispatch (header ∷ body) =
      if header / 16 == 3
      then with_topic (header / 2 % 4) (header ∷ body) (read_uint16 (header ∷ body) 2)
      else if header / 16 == 13
      then pong
      else ignored

  -- `_poll_once` catches a timeout and every `OSError`, and `MqttError` is one.
  abbrev pub polled : Reading → Dispatched
  polled nothing = ignored
  polled connection_lost = ignored
  polled timed_out = ignored
  polled (packet p rest) = dispatch p

  unfoldable pub poll_once : (closed : Bool) → List ℕ → Dispatched
  poll_once closed stream = polled (read_packet closed stream)
