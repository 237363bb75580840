-- ===== src/Firmware/Modbus/Crc.antt =====
-- The CRC is a word, and a change of one byte changes it.
use Prim.Native.Nat.{bit_xor}
use fuel_monitoring.Prelude.{
  ap, sym, ◌∙◌, ℕ, zero, suc, ◌+◌, ◌*◌, ◌<◌, ◌≡◌, refl, ◌≢◌, Bool, true, ◌&&◌, List, [], ◌∷◌, ◌++◌,
  All, ltb, leb, ◌==◌, arith, if◌then◌else◌,
}
use fuel_monitoring.Firmware.Bits.{bit_xor_bound, bit_xor_right, bit_xor_left}
use fuel_monitoring.Firmware.Modbus.{crc_round, crc_rounds, crc_from, crc16}

-- A test of every number below a bound.
every_below : ℕ → (ℕ → Bool) → Bool
every_below zero p = true
every_below (suc n) p = p n && every_below n p

every_below_lem : (n : ℕ) (p : ℕ → Bool) (x : ℕ) → every_below n p ≡ true → x < n → p x ≡ true
unfolding every_below
every_below_lem zero p x h lt = absurd (omega arith)
every_below_lem (suc n) p x h lt = ground (arith, every_below_lem n p x)

-- The top digit of a register after a round tells which way the round went.
round_back : ℕ → ℕ
round_back d = if leb 32768 d then bit_xor d 0xA001 * 2 + 1 else d * 2

round_table :
    every_below 65536 (λ c. round_back (crc_round c) == c && ltb (crc_round c) 65536) ≡ true
unfolding every_below round_back crc_round
round_table = refl

crc_round_lem : (c : ℕ) → c < 65536 → (round_back (crc_round c) ≡ c) × (crc_round c < 65536)
crc_round_lem c h =
    let t =
      every_below_lem 65536 (λ c. round_back (crc_round c) == c && ltb (crc_round c) 65536) c
        round_table h in
    (ground (arith, t), ground (arith, t))

crc_rounds_bound : (n c : ℕ) → c < 65536 → crc_rounds n c < 65536
unfolding crc_rounds
crc_rounds_bound zero c h = h
crc_rounds_bound (suc n) c h = crc_rounds_bound n (crc_round c) (crc_round_lem c h).1

crc_rounds_injective : (n c d : ℕ) → c < 65536 → d < 65536 → crc_rounds n c ≡ crc_rounds n d → c ≡ d
unfolding crc_rounds
crc_rounds_injective zero c d p q h = h
crc_rounds_injective (suc n) c d p q h =
    let (back_c, small_c) = crc_round_lem c p in
    let (back_d, small_d) = crc_round_lem d q in
    sym back_c
    ∙ ap round_back (crc_rounds_injective n (crc_round c) (crc_round d) small_c small_d h)
    ∙ back_d

abbrev pub IsByte : ℕ → Type 0
IsByte x = x < 256

word_xor : (c b : ℕ) → c < 65536 → b < 65536 → bit_xor c b < 65536
word_xor c b p q = bit_xor_bound 16 c b p q

pub crc_from_bound :
    (data_ : List ℕ) (c : ℕ) → All IsByte data_ → c < 65536 → crc_from c data_ < 65536
unfolding crc_from
crc_from_bound [] c h p = p
crc_from_bound (b ∷ data_) c h p =
    crc_from_bound data_ (crc_rounds 8 (bit_xor c b)) h.1
      (crc_rounds_bound 8 (bit_xor c b) (word_xor c b p (omega (arith, h.0))))

-- Two registers stay apart under the same bytes.
crc_from_injective :
    (data_ : List ℕ) (c d : ℕ)
    → All IsByte data_
    → c < 65536
    → d < 65536
    → crc_from c data_ ≡ crc_from d data_
    → c ≡ d
unfolding crc_from
crc_from_injective [] c d h p q e = e
crc_from_injective (b ∷ data_) c d h p q e =
    let wb : b < 65536 = omega (arith, h.0) in
    let xc = word_xor c b p wb in
    let xd = word_xor d b q wb in
    let same =
      crc_from_injective data_ (crc_rounds 8 (bit_xor c b)) (crc_rounds 8 (bit_xor d b)) h.1
        (crc_rounds_bound 8 (bit_xor c b) xc) (crc_rounds_bound 8 (bit_xor d b) xd) e in
    let inner = crc_rounds_injective 8 (bit_xor c b) (bit_xor d b) xc xd same in
    sym (bit_xor_right 16 c b p wb) ∙ ap (λ (x : ℕ). bit_xor x b) inner ∙ bit_xor_right 16 d b q wb

-- Two bytes take one register apart.
crc_from_byte :
    (tail : List ℕ) (c x y : ℕ)
    → All IsByte tail
    → c < 65536
    → IsByte x
    → IsByte y
    → crc_from c (x ∷ tail) ≡ crc_from c (y ∷ tail)
    → x ≡ y
unfolding crc_from
crc_from_byte tail c x y h p bx by_ e =
    let wx : x < 65536 = omega arith in
    let wy : y < 65536 = omega arith in
    let xc = word_xor c x p wx in
    let xd = word_xor c y p wy in
    let same =
      crc_from_injective tail (crc_rounds 8 (bit_xor c x)) (crc_rounds 8 (bit_xor c y)) h
        (crc_rounds_bound 8 (bit_xor c x) xc) (crc_rounds_bound 8 (bit_xor c y) xd) e in
    let inner = crc_rounds_injective 8 (bit_xor c x) (bit_xor c y) xc xd same in
    sym (bit_xor_left 16 c x p wx) ∙ ap (λ (z : ℕ). bit_xor c z) inner ∙ bit_xor_left 16 c y p wy

crc_from-append :
    (head tail : List ℕ) (c : ℕ) → crc_from c (head ++ tail) ≡ crc_from (crc_from c head) tail
unfolding crc_from
crc_from-append [] tail c = refl
crc_from-append (b ∷ head) tail c = crc_from-append head tail (crc_rounds 8 (bit_xor c b))

-- A word is the CRC of any bytes.
pub crc16_bound : (data_ : List ℕ) → All IsByte data_ → crc16 data_ < 65536
unfolding crc16
crc16_bound data_ h = crc_from_bound data_ 0xFFFF h (omega arith)

-- Two runs of bytes that differ in one byte have different CRCs.
pub crc16_detects :
    (head tail : List ℕ) (x y : ℕ)
    → All IsByte head
    → All IsByte tail
    → IsByte x
    → IsByte y
    → x ≢ y
    → crc16 (head ++ x ∷ tail) ≢ crc16 (head ++ y ∷ tail)
unfolding crc16
crc16_detects head tail x y hh ht bx by_ apart e = apart (
    crc_from_byte tail (crc_from 0xFFFF head) x y ht (crc_from_bound head 0xFFFF hh (omega arith))
      bx by_
      (sym (crc_from-append head (x ∷ tail) 0xFFFF) ∙ e ∙ crc_from-append head (y ∷ tail) 0xFFFF))
