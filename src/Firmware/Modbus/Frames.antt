-- ===== src/Firmware/Modbus/Frames.antt =====
-- What the parser of responses accepts, and what it refuses.
use Prim.Native.Nat.{bit_or}
use mathlib.Core.List.{append_assoc}
use fuel_monitoring.Prelude.{
  ap, sym, ◌∙◌, ℕ, suc, ◌+◌, ◌*◌, ◌/◌, ◌%◌, ◌<◌, ◌≤◌, ◌≡◌, refl, some, List, [], ◌∷◌, ◌++◌, All,
  length, length-append, get_elem?, arith,
}
use fuel_monitoring.Firmware.Bits.{bit_or_high, bit_or_low}
use fuel_monitoring.Firmware.Modbus.{
  ok, crc16, frame_with_crc, register_values, body_of, trailer_of, parse_checked, parse_response,
}
use fuel_monitoring.Firmware.Modbus.Crc.{IsByte, crc16_bound}

-- The registers as bytes, the high one first, and the body of the slave's answer to a read.
abbrev pub register_bytes : List ℕ → List ℕ
register_bytes [] = []
register_bytes (v ∷ vs) = v / 256 ∷ v % 256 ∷ register_bytes vs

abbrev pub response_body : (slave : ℕ) → List ℕ → List ℕ
response_body slave vs = slave ∷ 3 ∷ length vs * 2 ∷ register_bytes vs

abbrev pub IsWord : ℕ → Type 0
IsWord v = v < 65536

pub body_of-append : (f : List ℕ) (lo hi : ℕ) → body_of (f ++ lo ∷ hi ∷ []) ≡ f
unfolding body_of
body_of-append [] lo hi = refl
body_of-append (a ∷ []) lo hi = refl
body_of-append (a ∷ b ∷ []) lo hi = refl
body_of-append (a ∷ b ∷ c ∷ f) lo hi = ap (λ l. a ∷ l) (body_of-append (b ∷ c ∷ f) lo hi)

pub trailer_of-append :
    (f : List ℕ) (lo hi : ℕ) → trailer_of (f ++ lo ∷ hi ∷ []) ≡ bit_or lo (hi * 256)
unfolding trailer_of
trailer_of-append [] lo hi = refl
trailer_of-append (a ∷ []) lo hi = refl
trailer_of-append (a ∷ b ∷ []) lo hi = refl
trailer_of-append (a ∷ b ∷ c ∷ f) lo hi = trailer_of-append (b ∷ c ∷ f) lo hi

pub low_high : (lo hi : ℕ) → IsByte lo → IsByte hi → bit_or lo (hi * 256) ≡ hi * 256 + lo
low_high lo hi p q = bit_or_low 8 8 hi lo p q

high_low : (lo hi : ℕ) → IsByte lo → IsByte hi → bit_or (hi * 256) lo ≡ hi * 256 + lo
high_low lo hi p q = bit_or_high 8 8 hi lo p q

trailer_of-frame_with_crc : (f : List ℕ) → All IsByte f → trailer_of (frame_with_crc f) ≡ crc16 f
unfolding frame_with_crc
trailer_of-frame_with_crc f h =
    let word = crc16_bound f h in
    trailer_of-append f (crc16 f % 256) (crc16 f / 256)
    ∙ low_high (crc16 f % 256) (crc16 f / 256) (omega arith) (omega (arith, word))
    ∙ omega arith

length-register_bytes : (vs : List ℕ) → length (register_bytes vs) ≡ length vs * 2
length-register_bytes [] = refl
length-register_bytes (v ∷ vs) = omega (arith, length-register_bytes vs)

register_bytes-bytes : (vs : List ℕ) → All IsWord vs → All IsByte (register_bytes vs)
register_bytes-bytes [] h = tt
register_bytes-bytes (v ∷ vs) h = (omega (arith, h.0), (omega arith, register_bytes-bytes vs h.1))

first_two :
    (pre : List ℕ) (x y : ℕ) (rest : List ℕ)
    → (get_elem? (pre ++ x ∷ y ∷ rest) (length pre) ≡ some x)
      × (get_elem? (pre ++ x ∷ y ∷ rest) (suc (length pre)) ≡ some y)
first_two [] x y rest = (refl, refl)
first_two (z ∷ pre) x y rest = first_two pre x y rest

-- The two bytes of a register behind three leading bytes.
register_at :
    (pre : List ℕ) (i a b c v : ℕ) (rest : List ℕ)
    → IsWord v
    → length pre ≡ i * 2
    → let frame = a ∷ b ∷ c ∷ pre ++ v / 256 ∷ v % 256 ∷ rest in
      (get_elem? frame (3 + i * 2) ≡ some (v / 256))
      × (get_elem? frame (4 + i * 2) ≡ some (v % 256))
register_at pre i a b c v rest h at_i =
    let (hi, lo) = first_two pre (v / 256) (v % 256) rest in
    let frame = a ∷ b ∷ c ∷ pre ++ v / 256 ∷ v % 256 ∷ rest in
    let third : suc (suc (suc (length pre))) ≡ 3 + i * 2 = omega (arith, at_i) in
    let fourth : suc (suc (suc (suc (length pre)))) ≡ 4 + i * 2 = omega (arith, at_i) in
    (ap (get_elem? frame) (sym third) ∙ hi, ap (get_elem? frame) (sym fourth) ∙ lo)

-- Reading the registers back from index `i` on, after `i` of them.
register_values-register_bytes :
    (vs pre rest : List ℕ) (i a b c : ℕ)
    → All IsWord vs
    → length pre ≡ i * 2
    → register_values (length vs) i (a ∷ b ∷ c ∷ pre ++ (register_bytes vs ++ rest)) ≡ ok vs
unfolding register_values
register_values-register_bytes [] pre rest i a b c h at_i = refl
register_values-register_bytes (v ∷ vs) pre rest i a b c h at_i =
    let tail = register_bytes vs ++ rest in
    let (hi, lo) = register_at pre i a b c v tail h.0 at_i in
    let word : bit_or (v / 256 * 256) (v % 256) ≡ v =
      high_low (v % 256) (v / 256) (omega arith) (omega (arith, h.0)) ∙ omega arith in
    let next : length (pre ++ v / 256 ∷ v % 256 ∷ []) ≡ (i + 1) * 2 =
      omega (arith, length-append pre (v / 256 ∷ v % 256 ∷ []), at_i) in
    let more =
      register_values-register_bytes vs (pre ++ v / 256 ∷ v % 256 ∷ []) rest (i + 1) a b c h.1
        next in
    rw (hi, lo, word, rw (append_assoc pre (v / 256 ∷ v % 256 ∷ []) tail) at more) refl

-- A frame of three bytes and two more at its end reaches the checks.
parse_response-long :
    (slave func third lo hi n m : ℕ) (rest : List ℕ)
    → parse_response (slave ∷ func ∷ third ∷ rest ++ lo ∷ hi ∷ []) m n
      ≡ parse_checked m n slave func third (slave ∷ func ∷ third ∷ rest ++ lo ∷ hi ∷ [])
unfolding parse_response
parse_response-long slave func third lo hi n m [] = refl
parse_response-long slave func third lo hi n m (a ∷ []) = refl
parse_response-long slave func third lo hi n m (a ∷ b ∷ rest) = refl

-- A frame that passes all checks is read.
parse_checked-read :
    (slave n : ℕ) (frame : List ℕ)
    → length frame ≡ 3 + n * 2 + 2
    → crc16 (body_of frame) ≡ trailer_of frame
    → parse_checked slave n slave 3 (n * 2) frame ≡ register_values n 0 frame
unfolding parse_checked
parse_checked-read slave n frame long crc = ground (arith, long, crc)

-- The parser reads back the registers, at most 125 words, that a slave sends in a well-formed answer to a read: its
-- address, the function code, the byte count, the registers, and the CRC.
pub parse_response-frame_with_crc :
    (slave : ℕ) (vs : List ℕ)
    → IsByte slave
    → All IsWord vs
    → length vs ≤ 125
    → parse_response (frame_with_crc (response_body slave vs)) slave (length vs) ≡ ok vs
unfolding frame_with_crc
parse_response-frame_with_crc slave vs s h small =
    let body = response_body slave vs in
    let lo = crc16 body % 256 in
    let hi = crc16 body / 256 in
    let body_bytes : All IsByte body =
      (s, (omega arith, (omega arith, register_bytes-bytes vs h))) in
    let long : length (body ++ lo ∷ hi ∷ []) ≡ 3 + length vs * 2 + 2 =
      omega (arith, length-append body (lo ∷ hi ∷ []), length-register_bytes vs) in
    parse_response-long slave 3 (length vs * 2) lo hi (length vs) slave (register_bytes vs)
    ∙ parse_checked-read slave (length vs) (body ++ lo ∷ hi ∷ []) long
        (ap crc16 (body_of-append body lo hi) ∙ sym (trailer_of-frame_with_crc body body_bytes))
    ∙ register_values-register_bytes vs [] (lo ∷ hi ∷ []) 0 slave 3 (length vs * 2) h refl

-- What a frame satisfies that the parser reads.
parse_checked-crc :
    (m n slave func third : ℕ) (frame vs : List ℕ)
    → parse_checked m n slave func third frame ≡ ok vs
    → (crc16 (body_of frame) ≡ trailer_of frame) × (length frame ≡ 3 + n * 2 + 2)
unfolding parse_checked
parse_checked-crc m n slave func third frame vs h = ground arith

pub parse_response-crc :
    (m n : ℕ) (frame vs : List ℕ)
    → parse_response frame m n ≡ ok vs
    → (crc16 (body_of frame) ≡ trailer_of frame) × (5 ≤ length frame)
unfolding parse_response
parse_response-crc m n [] vs h = cc
parse_response-crc m n (a ∷ []) vs h = cc
parse_response-crc m n (a ∷ b ∷ []) vs h = cc
parse_response-crc m n (a ∷ b ∷ c ∷ []) vs h = cc
parse_response-crc m n (a ∷ b ∷ c ∷ d ∷ []) vs h = cc
parse_response-crc m n (a ∷ b ∷ c ∷ d ∷ e ∷ rest) vs h =
    let (crc, long) = parse_checked-crc m n a b c (a ∷ b ∷ c ∷ d ∷ e ∷ rest) vs h in
    (crc, omega arith)
