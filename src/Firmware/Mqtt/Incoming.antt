-- ===== src/Firmware/Mqtt/Incoming.antt =====
-- What the client makes of a message that the broker sends.
use fuel_monitoring.Prelude.{
  ap, ℕ, zero, suc, ◌+◌, ◌*◌, ◌/◌, ◌%◌, ◌≤◌, ◌<◌, ◌≡◌, refl, Bool, none, some, List, [], ◌∷◌, ◌++◌,
  length, length-append, get_elem?, arith, if◌then◌else◌,
}
use fuel_monitoring.Prelude.Bytes.{take, drop}
use fuel_monitoring.Firmware.Mqtt.{
  two_bytes, encode_utf8, publish_packet, read_uint16, index_error, unicode_error, dispatch,
  poll_once,
}
use fuel_monitoring.Firmware.Mqtt.Framing.{read_packet-framed}

get_elem?_beyond : (l : List ℕ) (i : ℕ) → length l ≤ i → get_elem? l i ≡ none
get_elem?_beyond [] i h = refl
get_elem?_beyond (x ∷ l) zero h = absurd (omega arith)
get_elem?_beyond (x ∷ l) (suc i) h = get_elem?_beyond l i (omega arith)

take_all : (n : ℕ) (l : List ℕ) → length l ≤ n → take n l ≡ l
unfolding take
take_all zero [] h = refl
take_all zero (x ∷ l) h = absurd (omega arith)
take_all (suc n) [] h = refl
take_all (suc n) (x ∷ l) h = ap (λ (k : List ℕ). x ∷ k) (take_all n l (omega arith))

read_uint16_beyond : (p : List ℕ) (i : ℕ) → length p ≤ i → read_uint16 p i ≡ none
unfolding read_uint16
read_uint16_beyond p i h = rw (get_elem?_beyond p i h) refl

-- The two bytes that are read as the length of the topic: the low byte of the length, and the topic's
-- first byte.
read_uint16_shifted :
    (h a b t : ℕ) (s : List ℕ) → read_uint16 (h ∷ a ∷ b ∷ t ∷ s) 2 ≡ some (b * 256 + t)
unfolding read_uint16
read_uint16_shifted h a b t s = refl

drop_four : (h a b t : ℕ) (s : List ℕ) → drop 4 (h ∷ a ∷ b ∷ t ∷ s) ≡ s
unfolding drop
drop_four h a b t s = refl

module _ (utf8 : List ℕ → Bool) where
  -- A packet with QoS 1 whose length of the topic is read past its end
  dispatch_beyond :
      (a b t : ℕ) (s : List ℕ)
      → length s ≤ b * 256 + t
      → dispatch utf8 (0x32 ∷ a ∷ b ∷ t ∷ s) ≡ (if utf8 s then index_error else unicode_error)
  unfolding dispatch
  dispatch_beyond a b t s h =
      let p = 0x32 ∷ a ∷ b ∷ t ∷ s in
      let far = read_uint16_beyond p (4 + (b * 256 + t)) (omega (arith, h)) in
      rw (read_uint16_shifted 0x32 a b t s, drop_four 0x32 a b t s, take_all (b * 256 + t) s h, far)
        refl

  -- A message with QoS 1 whose payload is shorter than 255 bytes for each byte of its topic, which has
  -- less than 256, ends the poll in an exception that no handler of the gateway catches. This holds for
  -- what the client itself writes for a publish, which is the standard's form, whatever follows it.
  pub poll_once-raises :
      (closed : Bool) (pid t : ℕ) (ts payload rest : List ℕ)
      → length ts + 1 < 256
      → length payload < 255 * (length ts + 1)
      → poll_once utf8 closed (publish_packet pid (t ∷ ts) payload ++ rest)
        ≡ (if utf8 (ts ++ (two_bytes pid ++ payload)) then index_error else unicode_error)
  unfolding poll_once publish_packet encode_utf8
  poll_once-raises closed pid t ts payload rest short small =
      let body = ts ++ (two_bytes pid ++ payload) in
      let n = length ts + 1 in
      let fits : length body ≤ n % 256 * 256 + t =
        unfold two_bytes in omega (arith, length-append ts (two_bytes pid ++ payload)) in
      rw (read_packet-framed closed 0x32 (encode_utf8 (t ∷ ts) ++ (two_bytes pid ++ payload)) rest)
        (unfold two_bytes in
          dispatch_beyond (suc (length ts) / 256) (suc (length ts) % 256) t body
            (omega (arith, fits)))
