-- ===== src/Relay/Sweep.antt =====
-- What a sweep leaves, and how a retry is counted.
use native.Mathlib.Nat.{one-le-pow, pow-suc}
use fuel_monitoring.Prelude.{
  ℕ, zero, suc, ◌+◌, ◌≤◌, ◌≡◌, refl, inl, inr, true, false, List, [], ◌∷◌, All, arith, Bool-cases,
  ltb, leb, if◌then◌else◌,
}
use fuel_monitoring.Relay.Queue.{Queues, enqueue_command}
use fuel_monitoring.Relay.Rows.{
  GatewayCommand, CommandStatus, pending, sent, failed, acked, rejected, is_overdue, is_expired,
  is_retried, retried_row, retry, exhaust, expire, sweep_rows, scan_and_sweep, compute_backoff,
  backoff_max, mark_sent, marked_sent, frame_of, is_sent, is_pending,
}

-- The wait before a retry is at least half a minute and at most a quarter of an hour, and it does not
-- shrink with the attempts.
pub compute_backoff_bounds :
    (n : ℕ)
    → (30 ≤ compute_backoff n)
      × (compute_backoff n ≤ backoff_max)
      × (compute_backoff n ≤ compute_backoff (suc n))
unfolding compute_backoff
compute_backoff_bounds zero = (omega arith, omega arith, omega arith)
compute_backoff_bounds (suc n) =
    let one = one-le-pow n 2 in
    (omega (arith, one), omega (arith, one), omega (arith, one, pow-suc 2 n))

-- Settled at a time: not overdue, and not expired.
abbrev pub IsSettledAt : ℕ → GatewayCommand → Type 0
IsSettledAt now c = (is_overdue now c ≡ false) × (is_expired now c ≡ false)

-- a row after the first loop is not both overdue and allowed another attempt
abbrev IsOut : ℕ → GatewayCommand → Type 0
IsOut now c = is_retried now c ≡ false

row_settled :
    (now : ℕ) (c : GatewayCommand) → IsOut now c → IsSettledAt now (expire now (exhaust now c))
unfolding expire exhaust
row_settled now c h = elim (Bool-cases (is_overdue now c)) [
  | inl y ↦
      let over : leb c.max_attempts c.attempts ≡ true = ground arith in rw (y, over) (refl, refl)
  | inr n ↦
      rw n
        (elim (Bool-cases (is_expired now c)) [ inl e ↦ rw e (refl, refl) | inr e ↦ rw e (n, e) ])
]

retried_row-IsOut : (now : ℕ) (c : GatewayCommand) → IsOut now (retried_row now c)
unfolding retried_row
retried_row-IsOut now c = ground (arith, compute_backoff_bounds (c.attempts + 1))

-- Each row after the first loop, whatever it was before.
retry-IsOut : (now : ℕ) (cs : List GatewayCommand) (q : Queues) → All (IsOut now) (retry now cs q).0
unfolding retry
retry-IsOut now [] q = tt
retry-IsOut now (c ∷ cs) q =
    let again = is_retried now c in
    let rest = retry-IsOut now cs (if again then enqueue_command (frame_of now c) q else q) in
    (elim (Bool-cases again) [ inl y ↦ rw y (retried_row-IsOut now c) | inr n ↦ rw n n ], rest)

sweep_rows-IsSettledAt :
    (now : ℕ) (cs : List GatewayCommand)
    → All (IsOut now) cs
    → All (IsSettledAt now) (sweep_rows now cs)
unfolding sweep_rows
sweep_rows-IsSettledAt now [] h = tt
sweep_rows-IsSettledAt now (c ∷ cs) h = (row_settled now c h.0, sweep_rows-IsSettledAt now cs h.1)

-- A sweep leaves no command that is sent and overdue, and none that is pending and expired, whatever
-- the rows were before.
pub scan_and_sweep-IsSettledAt :
    (now : ℕ) (cs : List GatewayCommand) (q : Queues)
    → All (IsSettledAt now) (scan_and_sweep now cs q).0
unfolding scan_and_sweep
scan_and_sweep-IsSettledAt now cs q =
    sweep_rows-IsSettledAt now (retry now cs q).0 (retry-IsOut now cs q)

sent_row-is_pending : (s : CommandStatus) → is_sent s ≡ true → is_pending s ≡ false
sent_row-is_pending pending h = cc
sent_row-is_pending sent h = refl
sent_row-is_pending failed h = cc
sent_row-is_pending acked h = cc
sent_row-is_pending rejected h = cc

-- The later loops leave a row that was just retried.
retried_row-kept :
    (now : ℕ) (c : GatewayCommand)
    → is_overdue now c ≡ true
    → expire now (exhaust now (retried_row now c)) ≡ retried_row now c
unfolding expire exhaust retried_row
retried_row-kept now c over =
    let is_out : is_sent c.status ≡ true = ground arith in
    let fresh : ltb (now + compute_backoff (c.attempts + 1)) now ≡ false = ground arith in
    rw (is_out, fresh, sent_row-is_pending c.status is_out) refl

-- A retry is counted twice, by the sweep that queues the command and by the relay that sends it: a
-- command with one attempt less than allowed exceeds its bound by one when the retry is sent.
pub retry_counts_twice :
    (now later : ℕ) (c : GatewayCommand) (q : Queues)
    → is_overdue now c ≡ true
    → c.attempts + 1 ≡ c.max_attempts
    → let (rows, after) = scan_and_sweep now (c ∷ []) q in
      (after.outbound ≡ frame_of now c ∷ q.outbound)
      × ((d : GatewayCommand) × (mark_sent later c.command_id rows ≡ d ∷ [])
          × (d.status ≡ sent)
          × (d.attempts ≡ c.max_attempts + 1))
unfolding scan_and_sweep retry sweep_rows enqueue_command
retry_counts_twice now later c q over last =
    let again : is_retried now c ≡ true = ground arith in
    rw (again, retried_row-kept now c over)
      (
        refl,
        (
          marked_sent later (retried_row now c),
          unfold mark_sent retried_row in ground arith,
          unfold marked_sent in refl,
          unfold marked_sent retried_row in omega (arith, last),
        ),
      )
