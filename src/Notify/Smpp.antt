-- ===== src/Notify/Smpp.antt =====
-- The SMPP transmitter of platform/fmp/services/notifications/dispatcher.py, on bytes: what it writes
-- and how it reads an answer. A stream is the list of its bytes.
pub mod Wire
use fuel_monitoring.Prelude.Bytes.{take, drop, read_exactly}
use fuel_monitoring.Prelude.{
  ℕ, zero, suc, ◌+◌, ◌*◌, ◌/◌, ◌%◌, Bool, true, false, not, ◌&&◌, ◌||◌, Option, none, some, List,
  [], ◌∷◌, ◌++◌, Text, length, ==_iff, ◌==◌, if◌then◌else◌,
}

abbrev pub smpp_submit_sm : ℕ
smpp_submit_sm = 0x00000004

abbrev pub smpp_bind_transmitter : ℕ
smpp_bind_transmitter = 0x00000002

abbrev pub smpp_bind_transmitter_resp : ℕ
smpp_bind_transmitter_resp = 0x80000002

abbrev pub smpp_submit_sm_resp : ℕ
smpp_submit_sm_resp = 0x80000004

-- The configuration of a client; texts are their bytes in UTF-8.
pub record SmppClient : Type 0 where
  pub system_id : List ℕ
  pub password : List ℕ
  pub sender_id : List ℕ

-- `struct.pack("!I", n)`, for n below 2 ^ 32
unfoldable pub pack_u32 : ℕ → List ℕ
pack_u32 n = (n / 16777216) ∷ (n / 65536 % 256) ∷ (n / 256 % 256) ∷ (n % 256) ∷ []

-- `struct.unpack("!I", bytes)[0]`, none for another length than 4
unfoldable pub unpack_u32 : List ℕ → Option ℕ
unpack_u32 (a ∷ b ∷ c ∷ d ∷ []) = some (a * 16777216 + b * 65536 + c * 256 + d)
unpack_u32 _ = none

-- `_pdu`
unfoldable pub pdu : (command_id : ℕ) → List ℕ → List ℕ
pdu command_id body =
    (pack_u32 (length body + 16) ++ (pack_u32 command_id ++ (pack_u32 0 ++ pack_u32 0))) ++ body

-- `_build_bind` and its body
abbrev pub bind_body : SmppClient → List ℕ
bind_body c =
    c.system_id
    ++ 0 ∷ (c.password ++ 0 ∷ b'C' ∷ b'M' ∷ b'T' ∷ 0 ∷ 0x34 ∷ 0x05 ∷ 0x01 ∷ (c.sender_id ++ 0 ∷ []))

unfoldable pub build_bind : SmppClient → List ℕ
build_bind c = pdu smpp_bind_transmitter (bind_body c)

-- `_build_submit_sm`; `encoded` is the text in UTF-8, cut at 254 bytes.
unfoldable pub build_submit_sm : SmppClient → (phone encoded : List ℕ) → List ℕ
build_submit_sm c phone encoded =
    let payload = take 254 encoded in
    pdu smpp_submit_sm (
      0
      ∷ 1
      ∷ 1
      ∷ (c.sender_id
          ++ 0 ∷ 1 ∷ 1 ∷ (phone ++ 0 ∷ 0 ∷ 0 ∷ 1 ∷ 0 ∷ 0 ∷ 0 ∷ 0 ∷ length payload ∷ payload)))

-- `_send`: what is written for a PDU
unfoldable pub sent : List ℕ → List ℕ
sent p = pack_u32 (length p) ++ p

abbrev read_length : Option ℕ → List ℕ → Option (List ℕ × List ℕ)
read_length none s = none
read_length (some n) s = read_exactly n s

abbrev after_length : Option (List ℕ × List ℕ) → Option (List ℕ × List ℕ)
after_length none = none
after_length (some (bytes, rest)) = read_length (unpack_u32 bytes) rest

-- `_recv`: the answer and the rest of the stream
unfoldable pub recv : List ℕ → Option (List ℕ × List ℕ)
recv s = after_length (read_exactly 4 s)

-- The end of a call: done, with the answer and the rest of the stream; a `SendError` with the status
-- in its text; an answer that is too short to unpack, or a stream that ends.
pub data Outcome : Type 0 where
  accepted : (answer rest : List ℕ) → Outcome
  send_error : (status : ℕ) → Outcome
  struct_error incomplete_read : Outcome

abbrev judged : ℕ → Option ℕ → Option ℕ → List ℕ → List ℕ → Outcome
judged expected (some command_id) (some status) resp rest =
    if not (command_id == expected) || not (status == 0)
    then send_error status
    else accepted resp rest
judged expected _ _ resp rest = struct_error

-- The test of an answer: `resp[4:8]` as its command and `resp[8:12]` as its status.
unfoldable pub check_response : ℕ → List ℕ → List ℕ → Outcome
check_response expected resp rest =
    judged expected (unpack_u32 (take 4 (drop 4 resp))) (unpack_u32 (take 4 (drop 8 resp))) resp
      rest

abbrev check_received : ℕ → Option (List ℕ × List ℕ) → Outcome
check_received expected none = incomplete_read
check_received expected (some (resp, rest)) = check_response expected resp rest

-- `connect`: what is written, and how it ends on what the server sends.
unfoldable pub connect : SmppClient → List ℕ → List ℕ × Outcome
connect c input = (sent (build_bind c), check_received smpp_bind_transmitter_resp (recv input))

abbrev submitted : SmppClient → (phone encoded : List ℕ) → Outcome → List ℕ → List ℕ × Outcome
submitted c phone encoded (accepted answer rest) written = (
  written ++ sent (build_submit_sm c phone encoded),
  check_received smpp_submit_sm_resp (recv rest),
)
submitted c phone encoded failed written = (written, failed)

-- `send_sms` of a new client, which connects first
unfoldable pub send_sms : SmppClient → (phone encoded : List ℕ) → List ℕ → List ℕ × Outcome
send_sms c phone encoded input =
    let (written, bound) = connect c input in submitted c phone encoded bound written
