-- ===== src/Notify/Smpp/Wire.antt =====
-- The transmitter against SMPP 3.4, in which a PDU is its length with the four bytes of the length
-- itself, its command, its status, its sequence number and its body.
use fuel_monitoring.Prelude.{
  ap, ℕ, zero, suc, ◌+◌, ◌≤◌, ◌<◌, ◌≡◌, refl, Option, none, some, List, [], ◌∷◌, ◌++◌, length,
  length-append, arith, ltb, ltb→lt, Bool-cases, inl, inr, if◌then◌else◌,
}
use mathlib.Core.List.{append_assoc}
use fuel_monitoring.Prelude.Bytes.{take, drop, read_exactly, read_exactly-append}
use fuel_monitoring.Notify.Smpp.{
  SmppClient, pack_u32, unpack_u32, pdu, build_bind, sent, recv, send_error, incomplete_read,
  check_response, connect, smpp_bind_transmitter, smpp_bind_transmitter_resp, bind_body,
}

abbrev pub u32_mod : ℕ
u32_mod = 4294967296

unpack-pack : (n : ℕ) → n < u32_mod → unpack_u32 (pack_u32 n) ≡ some n
unfolding unpack_u32 pack_u32
unpack-pack n h = ap some (omega arith)

-- A PDU of the standard.
abbrev pub standard_pdu : (command status sequence : ℕ) → List ℕ → List ℕ
standard_pdu command status sequence body =
    pack_u32 (16 + length body)
    ++ (pack_u32 command ++ (pack_u32 status ++ (pack_u32 sequence ++ body)))

read_exactly_short : (n : ℕ) (s : List ℕ) → length s < n → read_exactly n s ≡ none
unfolding read_exactly
read_exactly_short zero s h = absurd (omega arith)
read_exactly_short (suc n) [] h = refl
read_exactly_short (suc n) (x ∷ s) h = rw (read_exactly_short n s (omega arith)) refl

-- The reader takes the length of a standard PDU, and then as many bytes again.
recv-standard : (n : ℕ) (s : List ℕ) → n < u32_mod → recv (pack_u32 n ++ s) ≡ read_exactly n s
unfolding recv read_exactly pack_u32
recv-standard n s h = rw (unpack-pack n h) refl

-- The fields of an answer that starts at its command.
check_response-shifted :
    (command sequence : ℕ) (body rest : List ℕ)
    → sequence < u32_mod
    → check_response smpp_bind_transmitter_resp
        (pack_u32 command ++ (pack_u32 0 ++ (pack_u32 sequence ++ body)))
        rest
      ≡ send_error sequence
unfolding check_response pack_u32 take drop unpack_u32
check_response-shifted command sequence body rest h = ap send_error (omega arith)

take-append-drop : (n : ℕ) (l : List ℕ) → take n l ++ drop n l ≡ l
unfolding take drop
take-append-drop zero l = refl
take-append-drop (suc n) [] = refl
take-append-drop (suc n) (x ∷ l) = ap (λ (t : List ℕ). x ∷ t) (take-append-drop n l)

length-take : (n : ℕ) (l : List ℕ) → n ≤ length l → length (take n l) ≡ n
unfolding take
length-take zero l h = refl
length-take (suc n) [] h = absurd (omega arith)
length-take (suc n) (x ∷ l) h = omega (arith, length-take n l (omega arith))

-- The command that a server reads in what `connect` writes.
abbrev pub command_of : List ℕ → Option ℕ
command_of s = unpack_u32 (take 4 (drop 4 s))

sent_command :
    (command : ℕ) (body : List ℕ)
    → length (pdu command body) < u32_mod
    → command_of (sent (pdu command body)) ≡ some (length (pdu command body))
unfolding sent pdu pack_u32 unpack_u32 take drop
sent_command command body h = ap some (omega (arith, h))

module _ (sequence : ℕ) (body : List ℕ) where
  -- A standard answer after its length.
  abbrev fields : List ℕ → List ℕ
  fields more =
      pack_u32 smpp_bind_transmitter_resp ++ (pack_u32 0 ++ (pack_u32 sequence ++ (body ++ more)))

  length-fields : (more : List ℕ) → length (fields more) ≡ 12 + length body + length more
  unfolding pack_u32
  length-fields more = omega (arith, length-append body more)

  stream-fields :
      (rest : List ℕ)
      → standard_pdu smpp_bind_transmitter_resp 0 sequence body ++ rest
        ≡ pack_u32 (16 + length body) ++ fields rest
  unfolding pack_u32
  stream-fields rest = refl

  fields-split : (rest : List ℕ) → fields rest ≡ fields (take 4 rest) ++ drop 4 rest
  unfolding pack_u32
  fields-split rest =
      rw (append_assoc body (take 4 rest) (drop 4 rest), take-append-drop 4 rest) refl

  read_fields :
      (rest : List ℕ)
      → 4 ≤ length rest
      → read_exactly (16 + length body) (fields rest) ≡ some (fields (take 4 rest), drop 4 rest)
  read_fields rest h =
      let n : 16 + length body ≡ length (fields (take 4 rest)) =
        omega (arith, length-fields (take 4 rest), length-take 4 rest h) in
      rw (n, fields-split rest) (read_exactly-append (fields (take 4 rest)) (drop 4 rest))

-- No bind succeeds. When the server accepts it with a standard answer, whatever it sends after that,
-- the client waits for four bytes more than there are in the answer, or fails with the sequence number
-- as the status; and the server has read the length of the PDU as its command.
pub connect_refuses :
    (c : SmppClient) (sequence : ℕ) (body rest : List ℕ)
    → sequence < u32_mod
    → 16 + length body < u32_mod
    → length (build_bind c) < u32_mod
    → let answer = standard_pdu smpp_bind_transmitter_resp 0 sequence body in
      let (written, outcome) = connect c (answer ++ rest) in
      (outcome ≡ (if ltb (length rest) 4 then incomplete_read else send_error sequence))
      × (command_of written ≡ some (length (build_bind c)))
unfolding connect
connect_refuses c sequence body rest small fits bound = (
  elim (Bool-cases (ltb (length rest) 4)) [
    | inl short ↦
        rw
          (
            stream-fields sequence body rest,
            recv-standard (16 + length body) (fields sequence body rest) fits,
            read_exactly_short (16 + length body) (fields sequence body rest)
                (omega (arith, length-fields sequence body rest, ltb→lt _ _ short)),
            short,
          )
          refl
    | inr long ↦
        rw
          (
            stream-fields sequence body rest,
            recv-standard (16 + length body) (fields sequence body rest) fits,
            read_fields sequence body rest (ground (arith, long)),
            long,
          )
          (check_response-shifted smpp_bind_transmitter_resp sequence (body ++ take 4 rest)
            (drop 4 rest) small)
  ],
  (unfold build_bind in sent_command smpp_bind_transmitter (bind_body c) (bound)),
)
