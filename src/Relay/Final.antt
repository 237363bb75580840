-- ===== src/Relay/Final.antt =====
-- A command that was acknowledged, or that has failed, is out of every later sweep.
use fuel_monitoring.Prelude.{
  ap, ◌∙◌, ℕ, ◌≡◌, refl, inl, inr, true, false, List, [], ◌∷◌, All, keep_if, arith, Bool-cases,
  ◌==◌, if◌then◌else◌,
}
use fuel_monitoring.Relay.Queue.{Frame, Queues, enqueue_command}
use fuel_monitoring.Relay.Rows.{
  GatewayCommand, is_sent, is_pending, is_retried, retry, exhaust, expire, sweep_rows,
  scan_and_sweep, frame_of, retried_row,
}

-- neither waiting to be sent nor waiting for an answer
abbrev pub IsFinal : GatewayCommand → Type 0
IsFinal c = (is_sent c.status ≡ false) × (is_pending c.status ≡ false)

-- The rows and the frames of one command.
abbrev pub rows_of : ℕ → List GatewayCommand → List GatewayCommand
rows_of id cs = keep_if (λ c. c.command_id == id) cs

abbrev pub frames_of : ℕ → List Frame → List Frame
frames_of id fs = keep_if (λ f. f.command_id == id) fs

abbrev pub FinalIf : ℕ → GatewayCommand → Type 0
FinalIf id c = (c.command_id == id) ≡ true → IsFinal c

-- A sweep keeps the ids of the rows.
swept_id : (now : ℕ) (c : GatewayCommand) → (expire now (exhaust now c)).command_id ≡ c.command_id
unfolding expire exhaust
swept_id now c = ground arith

final_swept : (now : ℕ) (c : GatewayCommand) → IsFinal c → expire now (exhaust now c) ≡ c
unfolding expire exhaust
final_swept now c h = rw (h.0, h.1) refl

retry-final :
    (now id : ℕ) (cs : List GatewayCommand) (q : Queues)
    → All (FinalIf id) cs
    → (rows_of id (retry now cs q).0 ≡ rows_of id cs)
      × (frames_of id (retry now cs q).1.outbound ≡ frames_of id q.outbound)
unfolding retry retried_row enqueue_command
retry-final now id [] q h = (refl, refl)
retry-final now id (c ∷ cs) q h = elim (Bool-cases (c.command_id == id)) [
  | inl y ↦
      let (rows, frames) = retry-final now id cs q h.1 in
      rw ((h.0 y).0, y) (ap (λ (l : List GatewayCommand). c ∷ l) rows, frames)
  | inr n ↦ elim (Bool-cases (is_retried now c)) [
    | inl t ↦
        let (rows, frames) = retry-final now id cs (enqueue_command (frame_of now c) q) h.1 in
        rw t (rw n rows, frames ∙ (rw n refl))
    | inr f ↦ let (rows, frames) = retry-final now id cs q h.1 in rw (f, n) (rows, frames)
  ]
]

sweep_rows-final :
    (now id : ℕ) (cs : List GatewayCommand)
    → All (FinalIf id) cs
    → rows_of id (sweep_rows now cs) ≡ rows_of id cs
unfolding sweep_rows
sweep_rows-final now id [] h = refl
sweep_rows-final now id (c ∷ cs) h = elim (Bool-cases (c.command_id == id)) [
  | inl y ↦
      rw (final_swept now c (h.0 y), y)
        (ap (λ (l : List GatewayCommand). c ∷ l) (sweep_rows-final now id cs h.1))
  | inr n ↦ rw (swept_id now c, n) (sweep_rows-final now id cs h.1)
]

-- The first loop does not touch the final rows, so they are final after it.
retry-FinalIf :
    (now id : ℕ) (cs : List GatewayCommand) (q : Queues)
    → All (FinalIf id) cs
    → All (FinalIf id) (retry now cs q).0
unfolding retry
retry-FinalIf now id [] q h = tt
retry-FinalIf now id (c ∷ cs) q h = (
  elim (Bool-cases (is_retried now c)) [
    | inl t ↦ rw t (unfold retried_row in h.0)
    | inr f ↦ rw f h.0
  ],
  retry-FinalIf now id cs (if is_retried now c then enqueue_command (frame_of now c) q else q) h.1,
)

-- A sweep leaves the rows of a command whose rows are all final as they are, and queues no frame of it.
pub scan_and_sweep-final :
    (now id : ℕ) (cs : List GatewayCommand) (q : Queues)
    → All (FinalIf id) cs
    → (rows_of id (scan_and_sweep now cs q).0 ≡ rows_of id cs)
      × (frames_of id (scan_and_sweep now cs q).1.outbound ≡ frames_of id q.outbound)
unfolding scan_and_sweep
scan_and_sweep-final now id cs q h =
    let (rows, frames) = retry-final now id cs q h in
    (sweep_rows-final now id (retry now cs q).0 (retry-FinalIf now id cs q h) ∙ rows, frames)
