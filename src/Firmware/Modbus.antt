-- ===== src/Firmware/Modbus.antt =====
-- firmware/modbus_rtu.py: CRC-16, requests, and the parser of responses. Bytes and words are natural
-- numbers, shifts are products and quotients by powers of two.
pub mod Crc
pub mod Frames
pub mod Corruption
use Prim.Native.Nat.{bit_and, bit_xor, bit_or}
use fuel_monitoring.Prelude.{
  ℕ, zero, suc, ◌+◌, ◌-◌, ◌*◌, ◌/◌, ◌%◌, Bool, true, false, ◌&&◌, not, Option, none, some, List, [],
  ◌∷◌, ◌++◌, length, get_elem?, any, ltb, leb, ◌==◌, if◌then◌else◌,
}

-- The exceptions: `ModbusError` with its cases, a `ValueError`, and an index out of range.
pub data ModbusError : Type 0 where
  short_frame slave_mismatch function_mismatch length_mismatch count_mismatch : ModbusError
  crc_mismatch value_error index_error : ModbusError
  slave_exception : (code : ℕ) → ModbusError

pub data Reply {ℓ} (A : Type ℓ) : Type ℓ where
  ok : A → Reply A
  err : ModbusError → Reply A

-- One of the eight rounds for a byte, with `crc & 1` as the remainder by 2.
unfoldable pub crc_round : ℕ → ℕ
crc_round crc = if crc % 2 == 1 then bit_xor (crc / 2) 0xA001 else crc / 2

unfoldable pub crc_rounds : ℕ → ℕ → ℕ
crc_rounds zero crc = crc
crc_rounds (suc n) crc = crc_rounds n (crc_round crc)

-- The loop of `crc16` from a register value.
unfoldable pub crc_from : ℕ → List ℕ → ℕ
crc_from crc [] = crc
crc_from crc (byte ∷ data_) = crc_from (crc_rounds 8 (bit_xor crc byte)) data_

unfoldable pub crc16 : List ℕ → ℕ
crc16 bytes = crc_from 0xFFFF bytes

-- `frame + bytes((crc & 0xFF, crc >> 8))`; both are bytes, since the crc is a word.
unfoldable pub frame_with_crc : List ℕ → List ℕ
frame_with_crc frame = frame ++ crc16 frame % 256 ∷ crc16 frame / 256 ∷ []

-- `bytes(values)`: a `ValueError` when a value is no byte.
unfoldable pub bytes : List ℕ → Reply (List ℕ)
bytes values = if any (λ x. leb 256 x) values then err value_error else ok values

abbrev pub framed : Reply (List ℕ) → Reply (List ℕ)
framed (err e) = err e
framed (ok frame) = ok (frame_with_crc frame)

-- The register number is not checked against its two bytes, except by `bytes`.
unfoldable pub build_read_holding_registers : (slave start_reg count : ℕ) → Reply (List ℕ)
build_read_holding_registers slave start_reg count =
    if leb slave 0xFF && leb count 0x7D
    then framed
        (bytes (slave ∷ 3 ∷ start_reg / 256 ∷ start_reg % 256 ∷ count / 256 ∷ count % 256 ∷ []))
    else err value_error

unfoldable pub build_write_single_register : (slave reg value : ℕ) → Reply (List ℕ)
build_write_single_register slave reg value =
    framed (bytes (slave ∷ 6 ∷ reg / 256 ∷ reg % 256 ∷ value / 256 ∷ value % 256 ∷ []))

-- `(hi << 8) | lo`, `expected_count` times from index `i` of the frame on.
abbrev pub cons_value : ℕ → Reply (List ℕ) → Reply (List ℕ)
cons_value v (err e) = err e
cons_value v (ok vs) = ok (v ∷ vs)

abbrev pub word_at : Option ℕ → Option ℕ → Reply (List ℕ) → Reply (List ℕ)
word_at (some hi) (some lo) rest = cons_value (bit_or (hi * 256) lo) rest
word_at _ _ rest = err index_error

unfoldable pub register_values : (count i : ℕ) → List ℕ → Reply (List ℕ)
register_values zero i frame = ok []
register_values (suc n) i frame =
    word_at (get_elem? frame (3 + i * 2)) (get_elem? frame (4 + i * 2))
      (register_values n (i + 1) frame)

-- `frame[:-2]` and the two bytes after it
unfoldable pub body_of : List ℕ → List ℕ
body_of [] = []
body_of (a ∷ []) = []
body_of (a ∷ b ∷ []) = []
body_of (a ∷ b ∷ c ∷ rest) = a ∷ body_of (b ∷ c ∷ rest)

unfoldable pub trailer_of : List ℕ → ℕ
trailer_of [] = 0
trailer_of (a ∷ []) = 0
trailer_of (lo ∷ hi ∷ []) = bit_or lo (hi * 256)
trailer_of (a ∷ b ∷ c ∷ rest) = trailer_of (b ∷ c ∷ rest)

-- The checks of `parse_response` on a frame of at least five bytes, in the order of the code.
unfoldable pub parse_checked :
    (expected_slave expected_count slave func third : ℕ) → List ℕ → Reply (List ℕ)
parse_checked expected_slave expected_count slave func third frame =
    if not (slave == expected_slave)
    then err slave_mismatch
    else if not (bit_and func 0x80 == 0)
    then err (slave_exception third)
    else if not (func == 3)
    then err function_mismatch
    else if not (length frame == 3 + expected_count * 2 + 2)
    then err length_mismatch
    else if not (third == expected_count * 2)
    then err count_mismatch
    else if not (crc16 (body_of frame) == trailer_of frame)
    then err crc_mismatch
    else register_values expected_count 0 frame

unfoldable pub parse_response : List ℕ → (expected_slave expected_count : ℕ) → Reply (List ℕ)
parse_response (slave ∷ func ∷ third ∷ a ∷ b ∷ rest) expected_slave expected_count =
    parse_checked expected_slave expected_count slave func third
      (slave ∷ func ∷ third ∷ a ∷ b ∷ rest)
parse_response _ expected_slave expected_count = err short_frame

pub data Endian : Type 0 where
  big little other : Endian

abbrev words : ℕ → ℕ → ℕ
words hi lo = bit_and (bit_or (hi * 65536) lo) 0xFFFFFFFF

abbrev two_words : Endian → ℕ → ℕ → Reply ℕ
two_words big a b = ok (words a b)
two_words little a b = ok (words b a)
two_words other a b = err value_error

-- `assemble_u32`; with fewer than two values an index is out of range, after the test of the order.
unfoldable pub assemble_u32 : List ℕ → Endian → Reply ℕ
assemble_u32 (a ∷ b ∷ rest) e = two_words e a b
assemble_u32 _ other = err value_error
assemble_u32 _ _ = err index_error
