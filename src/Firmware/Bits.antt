-- ===== src/Firmware/Bits.antt =====
-- The bit operations of Python on natural numbers, through their lowest digits.
use Prim.Native.Nat.{differ, max, digits, bitwise, bit_xor, bit_or, bit_xor-bitwise, bit_or-bitwise}
use native.Mathlib.Nat.{pow-suc}
use fuel_monitoring.Prelude.{
  ℕ, zero, suc, ◌+◌, ◌*◌, ◌/◌, ◌%◌, ◌^◌, ◌≤◌, ◌<◌, ◌≡◌, refl, sym, ◌∙◌, ◌-◌, arith, ap,
}

-- Digits beyond the number's own add nothing to the result of a bitwise operation.
module _ (tail : ℕ → ℕ) (op : ℕ → ℕ → ℕ) where
  of_zero : (count y : ℕ) → digits tail op count 0 y ≡ tail y
  of_zero zero y = refl
  of_zero (suc count) y = refl

  spare : (own k x y : ℕ) → x ≤ own → digits tail op (own + k) x y ≡ digits tail op own x y
  spare own k zero y fits = of_zero (own + k) y ∙ sym (of_zero own y)
  spare zero k (suc x) y fits = absurd (omega arith)
  spare (suc own) k (suc x) y fits =
      let one_more : suc own + k ≡ suc (own + k) = omega arith in
      ap (λ (n : ℕ). digits tail op n (suc x) y) one_more
      ∙ ap (λ (high : ℕ). high * 2 + op (suc x % 2) (y % 2))
          (spare own k (suc x / 2) (y / 2) (omega arith))

  split_lowest :
      (x y : ℕ)
      → bitwise tail op (suc x) y ≡ bitwise tail op (suc x / 2) (y / 2) * 2 + op (suc x % 2) (y % 2)
  split_lowest x y =
      let half = suc x / 2 in
      let covers : half + (x - half) ≡ x = omega arith in
      ap (λ (n : ℕ). digits tail op n half (y / 2) * 2 + op (suc x % 2) (y % 2)) (sym covers)
      ∙ ap (λ (high : ℕ). high * 2 + op (suc x % 2) (y % 2))
          (spare half (x - half) half (y / 2) (omega arith))

zero-bit_or : (y : ℕ) → bit_or 0 y ≡ y
zero-bit_or y = bit_or-bitwise 0 y

-- One digit of `|` at a time.
pub or_digit : (x y : ℕ) → bit_or x y ≡ bit_or (x / 2) (y / 2) * 2 + max (x % 2) (y % 2)
or_digit zero y = omega (arith, zero-bit_or y, zero-bit_or (y / 2))
or_digit (suc x) y =
    bit_or-bitwise (suc x) y
    ∙ split_lowest (λ n. n) max x y
    ∙ ap (λ (high : ℕ). high * 2 + max (suc x % 2) (y % 2))
        (sym (bit_or-bitwise (suc x / 2) (y / 2)))

-- On two digits: at most 1, and its own inverse on either side.
abbrev DiffersWell : ℕ → ℕ → Type 0
DiffersWell x y =
    (differ x y ≤ 1) × (differ (differ x y) y ≡ x) × (differ x (differ x y) ≡ y) × (differ 0 y ≡ y)

differ-DiffersWell : (x y : ℕ) → x < 2 → y < 2 → DiffersWell x y
differ-DiffersWell zero zero p q = (omega arith, refl, refl, refl)
differ-DiffersWell zero (suc zero) p q = (omega arith, refl, refl, refl)
differ-DiffersWell (suc zero) zero p q = (omega arith, refl, refl, refl)
differ-DiffersWell (suc zero) (suc zero) p q = (omega arith, refl, refl, refl)
differ-DiffersWell zero (suc (suc y)) p q = absurd (omega arith)
differ-DiffersWell (suc zero) (suc (suc y)) p q = absurd (omega arith)
differ-DiffersWell (suc (suc x)) y p q = absurd (omega arith)

digits_lem : (a b : ℕ) → DiffersWell (a % 2) (b % 2)
digits_lem a b = differ-DiffersWell (a % 2) (b % 2) (omega arith) (omega arith)

pub bit_xor_step : (a b : ℕ) → bit_xor a b ≡ bit_xor (a / 2) (b / 2) * 2 + differ (a % 2) (b % 2)
bit_xor_step zero b = simp bit_xor-bitwise (omega (arith, digits_lem 0 b))
bit_xor_step (suc a) b = simp bit_xor-bitwise (split_lowest (λ n. n) differ a b)

pub bit_xor_bound : (k a b : ℕ) → a < 2 ^ k → b < 2 ^ k → bit_xor a b < 2 ^ k
bit_xor_bound zero a b p q =
    let zeros : bit_xor 0 0 ≡ 0 = refl in
    let ea : a ≡ 0 = omega arith in let eb : b ≡ 0 = omega arith in rw (ea, eb) (omega arith)
bit_xor_bound (suc k) a b p q =
    let e = pow-suc 2 k in
    let half = bit_xor_bound k (a / 2) (b / 2) (omega (arith, e)) (omega (arith, e)) in
    omega (arith, e, half, bit_xor_step a b, digits_lem a b)

-- The halves and the lowest digit of an exclusive or.
halves :
    (a b : ℕ)
    → (bit_xor a b / 2 ≡ bit_xor (a / 2) (b / 2)) × (bit_xor a b % 2 ≡ differ (a % 2) (b % 2))
halves a b = (
  omega (arith, bit_xor_step a b, digits_lem a b),
  omega (arith, bit_xor_step a b, digits_lem a b),
)

-- On numbers of `k` digits, an exclusive or undoes itself.
pub bit_xor_right : (k a b : ℕ) → a < 2 ^ k → b < 2 ^ k → bit_xor (bit_xor a b) b ≡ a
bit_xor_right zero a b p q =
    let ea : a ≡ 0 = omega arith in let eb : b ≡ 0 = omega arith in rw (ea, eb) refl
bit_xor_right (suc k) a b p q =
    let e = pow-suc 2 k in
    let half = bit_xor_right k (a / 2) (b / 2) (omega (arith, e)) (omega (arith, e)) in
    let (h, d) = halves a b in
    let (small, right, left, low) = digits_lem a b in
    let step = bit_xor_step (bit_xor a b) b in omega (arith, rw (h, d, half, right) at step)

pub bit_xor_left : (k a b : ℕ) → a < 2 ^ k → b < 2 ^ k → bit_xor a (bit_xor a b) ≡ b
bit_xor_left zero a b p q =
    let ea : a ≡ 0 = omega arith in let eb : b ≡ 0 = omega arith in rw (ea, eb) refl
bit_xor_left (suc k) a b p q =
    let e = pow-suc 2 k in
    let half = bit_xor_left k (a / 2) (b / 2) (omega (arith, e)) (omega (arith, e)) in
    let (h, d) = halves a b in
    let (small, right, left, low) = digits_lem a b in
    let step = bit_xor_step a (bit_xor a b) in omega (arith, rw (h, d, half, left) at step)

mul_two_pow : (q k : ℕ) → q * 2 ^ suc k ≡ 2 * (q * 2 ^ k)
mul_two_pow q k = omega (arith, ap (λ (t : ℕ). q * t) (pow-suc 2 k))

bit_or-zero_right : (k a : ℕ) → a < 2 ^ k → bit_or a 0 ≡ a
bit_or-zero_right zero a p = let ea : a ≡ 0 = omega arith in rw ea refl
bit_or-zero_right (suc k) a p =
    omega
      (arith, pow-suc 2 k, or_digit a 0, bit_or-zero_right k (a / 2) (omega (arith, pow-suc 2 k)))

-- Fields that do not overlap are added by `|`.
pub bit_or_high : (k j q r : ℕ) → r < 2 ^ k → q < 2 ^ j → bit_or (q * 2 ^ k) r ≡ q * 2 ^ k + r
bit_or_high zero j q r fits p =
    let er : r ≡ 0 = omega arith in rw er (omega (arith, bit_or-zero_right j (q * 1) (omega arith)))
bit_or_high (suc k) j q r fits p = ground (
  arith,
  or_digit (q * 2 ^ suc k) r,
  mul_two_pow q k,
  bit_or_high k j q (r / 2) (omega (arith, pow-suc 2 k)) p,
)

pub bit_or_low : (k j q r : ℕ) → r < 2 ^ k → q < 2 ^ j → bit_or r (q * 2 ^ k) ≡ q * 2 ^ k + r
bit_or_low zero j q r fits p =
    let er : r ≡ 0 = omega arith in rw er (omega (arith, zero-bit_or (q * 1)))
bit_or_low (suc k) j q r fits p = ground (
  arith,
  or_digit r (q * 2 ^ suc k),
  mul_two_pow q k,
  bit_or_low k j q (r / 2) (omega (arith, pow-suc 2 k)) p,
)
