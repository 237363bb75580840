-- ===== src/Firmware/Modbus/Corruption.antt =====
-- A frame that was read is refused once one of its bytes has changed.
use Prim.Native.Nat.{bit_or}
use mathlib.Core.List.{append_assoc}
use fuel_monitoring.Prelude.{
  ap, sym, ◌∙◌, ℕ, ◌*◌, ◌≤◌, ◌≡◌, refl, ◌≢◌, ◌⊎◌, inl, inr, List, [], ◌∷◌, ◌++◌, All, length,
  length-append, arith,
}
use fuel_monitoring.Firmware.Modbus.{
  Reply, ok, err, ModbusError, crc16, body_of, trailer_of, parse_response,
}
use fuel_monitoring.Firmware.Modbus.Crc.{IsByte, crc16_detects}
use fuel_monitoring.Firmware.Modbus.Frames.{
  body_of-append, trailer_of-append, low_high, parse_response-crc,
}

-- A list is empty, has one element, or ends in two.
abbrev Ending : List ℕ → Type 0
Ending l =
    (l ≡ [])
    ⊎ ((z : ℕ) × (l ≡ z ∷ []))
    ⊎ ((front : List ℕ) × (lo : ℕ) × (hi : ℕ) × (l ≡ front ++ lo ∷ hi ∷ []))

lengthen : (a b : ℕ) (l : List ℕ) → Ending (b ∷ l) → Ending (a ∷ b ∷ l)
lengthen a b l (inl q) = absurd (cc)
lengthen a b l (inr (inl (z, q))) = inr (inr ([], a, z, ap (λ (t : List ℕ). a ∷ t) q))
lengthen a b l (inr (inr (front, lo, hi, q))) =
    inr (inr (a ∷ front, lo, hi, ap (λ (t : List ℕ). a ∷ t) q))

ending : (l : List ℕ) → Ending l
ending [] = inl refl
ending (a ∷ []) = inr (inl (a, refl))
ending (a ∷ b ∷ l) = lengthen a b l (ending (b ∷ l))

-- The last element of a list that has one.
last_of : (l : List ℕ) → 1 ≤ length l → (front : List ℕ) × (z : ℕ) × (l ≡ front ++ z ∷ [])
last_of [] h = absurd (omega arith)
last_of (a ∷ []) h = ([], a, refl)
last_of (a ∷ b ∷ l) h =
    let (front, z, q) = last_of (b ∷ l) (omega arith) in
    (a ∷ front, z, ap (λ (t : List ℕ). a ∷ t) q)

-- The check of the CRC that a read frame has passed.
abbrev Passes : List ℕ → Type 0
Passes frame = crc16 (body_of frame) ≡ trailer_of frame

passing_crc : (f : List ℕ) (lo hi : ℕ) → Passes (f ++ lo ∷ hi ∷ []) → crc16 f ≡ bit_or lo (hi * 256)
passing_crc f lo hi h = ap crc16 (sym (body_of-append f lo hi)) ∙ h ∙ trailer_of-append f lo hi

of_front {ℓ} : (P : ℕ → Type ℓ) (front rest : List ℕ) → All P (front ++ rest) → All P front
of_front P [] rest h = tt
of_front P (a ∷ front) rest h = (h.0, of_front P front rest h.1)

of_last {ℓ} : (P : ℕ → Type ℓ) (front : List ℕ) (z : ℕ) → All P (front ++ z ∷ []) → P z
of_last P [] z h = h.0
of_last P (a ∷ front) z h = of_last P front z h.1

Reply-cases {ℓ} :
    {A : Type ℓ} (m : Reply A) → ((a : A) × (m ≡ ok a)) ⊎ ((e : ModbusError) × (m ≡ err e))
Reply-cases (ok a) = inl (a, refl)
Reply-cases (err e) = inr (e, refl)

module _ (x y : ℕ) (bx : IsByte x) (by_ : IsByte y) (apart : x ≢ y) where
  -- a change in the body, with the same two bytes behind
  body_change :
      (head front : List ℕ) (lo hi : ℕ)
      → All IsByte head
      → All IsByte front
      → Passes ((head ++ x ∷ front) ++ lo ∷ hi ∷ [])
      → Passes ((head ++ y ∷ front) ++ lo ∷ hi ∷ [])
      → ⊥
  body_change head front lo hi hh hf p q =
      crc16_detects head front x y hh hf bx by_ apart
        (passing_crc (head ++ x ∷ front) lo hi p ∙ sym (passing_crc (head ++ y ∷ front) lo hi q))

  -- a change in the low byte of the CRC
  low_change :
      (head : List ℕ) (hi : ℕ)
      → IsByte hi
      → Passes (head ++ x ∷ hi ∷ [])
      → Passes (head ++ y ∷ hi ∷ [])
      → ⊥
  low_change head hi bh p q =
      let same = sym (passing_crc head x hi p) ∙ passing_crc head y hi q in
      apart (omega (arith, same, low_high x hi bx bh, low_high y hi by_ bh))

  -- a change in its high byte
  high_change :
      (front : List ℕ) (lo : ℕ)
      → IsByte lo
      → Passes (front ++ lo ∷ x ∷ [])
      → Passes (front ++ lo ∷ y ∷ [])
      → ⊥
  high_change front lo bl p q =
      let same = sym (passing_crc front lo x p) ∙ passing_crc front lo y q in
      apart (omega (arith, same, low_high lo x bl bx, low_high lo y bl by_))

  -- A frame and its change do not both pass.
  both_pass :
      (head tail : List ℕ)
      → Ending tail
      → All IsByte head
      → All IsByte tail
      → 5 ≤ length (head ++ x ∷ tail)
      → Passes (head ++ x ∷ tail)
      → Passes (head ++ y ∷ tail)
      → ⊥
  both_pass head tail (inl q) hh ht long p p' =
      let size = rw (q, length-append head (x ∷ [])) at long in
      let (front, z, e) = last_of head (omega (arith, size)) in
      high_change front z (of_last IsByte front z (rw e at hh))
        (rw (q, e, append_assoc front (z ∷ []) (x ∷ [])) at p)
        (rw (q, e, append_assoc front (z ∷ []) (y ∷ [])) at p')
  both_pass head tail (inr (inl (z, q))) hh ht long p p' =
      low_change head z (rw q at ht).0 (rw q at p) (rw q at p')
  both_pass head tail (inr (inr (front, lo, hi, q))) hh ht long p p' =
      body_change head front lo hi hh (of_front IsByte front (lo ∷ hi ∷ []) (rw q at ht))
        (rw (q, ← append_assoc head (x ∷ front) (lo ∷ hi ∷ [])) at p)
        (rw (q, ← append_assoc head (y ∷ front) (lo ∷ hi ∷ [])) at p')

  -- When a frame of bytes is read, the same frame with one byte changed, wherever it stands, is an
  -- error.
  pub corruption_refused :
      (head tail vs : List ℕ) (expected_slave expected_count : ℕ)
      → All IsByte head
      → All IsByte tail
      → parse_response (head ++ x ∷ tail) expected_slave expected_count ≡ ok vs
      → (e : ModbusError) × (parse_response (head ++ y ∷ tail) expected_slave expected_count
          ≡ err e)
  corruption_refused head tail vs m n hh ht read =
      let (p, long) = parse_response-crc m n (head ++ x ∷ tail) vs read in
      elim (Reply-cases (parse_response (head ++ y ∷ tail) m n)) [
        | inr refused ↦ refused
        | inl (vs', read') ↦ absurd (
            both_pass head tail (ending tail) hh ht long p
              (parse_response-crc m n (head ++ y ∷ tail) vs' read').0)
      ]
