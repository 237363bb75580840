-- ===== src/Firmware/Mqtt/Framing.antt =====
-- What is written under a header and a remaining length is read back whole.
use fuel_monitoring.Prelude.{
  ap, ◌∙◌, ℕ, zero, suc, ◌+◌, ◌*◌, ◌/◌, ◌%◌, ◌<◌, ◌≡◌, refl, inl, inr, Bool, true, false, List, ◌∷◌,
  ◌++◌, length, arith, Bool-cases, ◌==◌, if◌then◌else◌,
}
use mathlib.Core.List.{append_assoc}
use fuel_monitoring.Prelude.Bytes.{read_exactly-append}
use fuel_monitoring.Firmware.Mqtt.{
  encode_from, encode_remaining_length, framed, packet, Length, counted, read_length, read_packet,
}

-- One more digit of a number, in multiples of m
digit_step : (q d m : ℕ) → d * m + q * (m * 128) ≡ (d + q * 128) * m
digit_step q d m = grind arith

last_digit :
    (n r m : ℕ) (s : List ℕ) (rest : Length)
    → n / 128 ≡ 0
    → (if n % 128 / 128 % 2 == 0 then counted (r + n % 128 % 128 * m) s else rest)
      ≡ counted (r + n * m) s
last_digit n r m s rest h =
    let bit : (n % 128 / 128 % 2 == 0) ≡ true = ground arith in
    let value : n % 128 % 128 ≡ n = omega arith in
    rw bit (ap (λ (d : ℕ). counted (r + d * m) s) value)

next_digit :
    (n r m : ℕ) (now s : List ℕ) (rest : Length)
    → rest ≡ counted (r + (n % 128 + 128) % 128 * m + n / 128 * (m * 128)) s
    → (if (n % 128 + 128) / 128 % 2 == 0 then counted (r + (n % 128 + 128) % 128 * m) now else rest)
      ≡ counted (r + n * m) s
next_digit n r m now s rest h =
    let bit : ((n % 128 + 128) / 128 % 2 == 0) ≡ false = ground arith in
    let whole : (n % 128 + 128) % 128 + n / 128 * 128 ≡ n = omega arith in
    rw bit (
      h
      ∙ ap (λ (t : ℕ). counted t s)
          (omega
            (arith, digit_step (n / 128) ((n % 128 + 128) % 128) m, ap (λ (t : ℕ). t * m) whole)))

read_length-encode_from :
    (f n r m : ℕ) (s : List ℕ)
    → n < f
    → read_length r m (encode_from f n ++ s) ≡ counted (r + n * m) s
unfolding encode_from read_length
read_length-encode_from zero n r m s h = absurd (omega arith)
read_length-encode_from (suc f) n r m s h = elim (Bool-cases (n / 128 == 0)) [
  | inl last ↦
      rw last (last_digit n r m s (read_length (r + n % 128 % 128 * m) (m * 128) s) (ground arith))
  | inr more ↦ rw more (
      next_digit n r m (encode_from f (n / 128) ++ s) s
        (read_length (r + (n % 128 + 128) % 128 * m) (m * 128) (encode_from f (n / 128) ++ s))
        (read_length-encode_from f (n / 128) (r + (n % 128 + 128) % 128 * m) (m * 128) s
          (ground (arith, more))))
]

-- The reader takes exactly one packet off the stream, whatever follows it.
pub read_packet-framed :
    (closed : Bool) (header : ℕ) (body rest : List ℕ)
    → read_packet closed (framed header body ++ rest) ≡ packet (header ∷ body) rest
unfolding read_packet framed encode_remaining_length
read_packet-framed closed header body rest =
    let n = length body in
    rw
      (
        append_assoc (encode_from (n + 1) n) body rest,
        read_length-encode_from (n + 1) n 0 1 (body ++ rest) (omega arith),
      )
      (rw (let e : 0 + n * 1 ≡ length body = omega arith in e, read_exactly-append body rest) refl)
