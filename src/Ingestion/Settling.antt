-- ===== src/Ingestion/Settling.antt =====
-- An acknowledgement settles its command for every later sweep, whoever sends it.
use fuel_monitoring.Prelude.{
  ap, ◌∙◌, ℕ, ◌≡◌, refl, inl, inr, Option, some, List, [], ◌∷◌, Text, text_eq, All, map, arith,
  Bool-cases, ◌==◌,
}
use fuel_monitoring.Relay.Queue.{Queues}
use fuel_monitoring.Relay.Rows.{GatewayCommand, scan_and_sweep}
use fuel_monitoring.Relay.Final.{IsFinal, FinalIf, rows_of, frames_of, scan_and_sweep-final}
use fuel_monitoring.Ingestion.Acks.{
  AckPayload, AckState, AckStatus, executed, refused, ack_status_of, name_of, acked_row, ack_rows,
  find_command, handle_command_ack,
}

abbrev pub ack_of : Text → AckStatus → Option Text → AckPayload
ack_of cid s detail = record { command_id = some cid; status = some (name_of s); detail = detail }

ack_status_of-name_of : (s : AckStatus) → ack_status_of (some (name_of s)) ≡ some s
unfolding text_eq
ack_status_of-name_of executed = refl
ack_status_of-name_of refused = refl

acked_row-IsFinal :
    (now : ℕ) (s : AckStatus) (detail : Option Text) (c : GatewayCommand)
    → IsFinal (acked_row now s detail c)
unfolding acked_row
acked_row-IsFinal now executed detail c = (refl, refl)
acked_row-IsFinal now refused detail c = (refl, refl)

ack_rows-FinalIf :
    (now id : ℕ) (s : AckStatus) (detail : Option Text) (cs : List GatewayCommand)
    → All (FinalIf id) (ack_rows now id s detail cs)
unfolding ack_rows
ack_rows-FinalIf now id s detail [] = tt
ack_rows-FinalIf now id s detail (c ∷ cs) = (
  elim (Bool-cases (c.command_id == id)) [
    | inl y ↦ rw y (λ e. acked_row-IsFinal now s detail c)
    | inr n ↦ rw n (λ e. absurd (ground (arith, e, n)))
  ],
  ack_rows-FinalIf now id s detail cs,
)

-- The rows of the command after an acknowledgement, by the rows before.
rows_of-ack_rows :
    (now id : ℕ) (s : AckStatus) (detail : Option Text) (cs : List GatewayCommand)
    → rows_of id (ack_rows now id s detail cs) ≡ map (acked_row now s detail) (rows_of id cs)
unfolding ack_rows acked_row
rows_of-ack_rows now id s detail [] = refl
rows_of-ack_rows now id s detail (c ∷ cs) = elim (Bool-cases (c.command_id == id)) [
  | inl y ↦
      rw (y, y)
        (ap (λ (l : List GatewayCommand). acked_row now s detail c ∷ l)
          (rows_of-ack_rows now id s detail cs))
  | inr n ↦ rw (n, n) (rows_of-ack_rows now id s detail cs)
]

-- An acknowledgement of a command that is in the table settles its row, on the topic of any gateway:
-- a sweep at any later time leaves the settled row as it is and queues no frame of the command.
pub handle_command_ack-settles :
    (uuid_of : Text → Option ℕ) (now later x id : ℕ) (mac cid : Text) (s : AckStatus)
    (detail : Option Text) (c : GatewayCommand) (st : AckState) (q : Queues)
    → uuid_of (x ∷ cid) ≡ some id
    → find_command id st.commands ≡ some c
    → let after = (handle_command_ack uuid_of now mac (ack_of (x ∷ cid) s detail) st).commands in
      (rows_of id (scan_and_sweep later after q).0
        ≡ map (acked_row now s detail) (rows_of id st.commands))
      × (frames_of id (scan_and_sweep later after q).1.outbound ≡ frames_of id q.outbound)
unfolding handle_command_ack
handle_command_ack-settles uuid_of now later x id mac cid s detail c st q parsed found =
    let rows = ack_rows now id s detail st.commands in
    let (kept, frames) =
      scan_and_sweep-final later id rows q (ack_rows-FinalIf now id s detail st.commands) in
    rw (ack_status_of-name_of s, parsed, found)
      (kept ∙ rows_of-ack_rows now id s detail st.commands, frames)
