-- ===== src/Relay/Rows.antt =====
-- The rows of `GatewayCommand`, `_mark_sent`, and one sweep of the retries and expiries.
-- Times are in seconds.
use fuel_monitoring.Prelude.{
  ℕ, zero, suc, ◌+◌, ◌*◌, ◌^◌, Bool, true, false, ◌&&◌, Option, none, some, List, [], ◌∷◌, Text,
  ltb, leb, min, ◌==◌, if◌then◌else◌,
}
use fuel_monitoring.Relay.Queue.{Frame, Queues, enqueue_command}

pub data CommandStatus : Type 0 where
  pending sent failed acked rejected : CommandStatus

pub data CommandError : Type 0 where
  attempts_exhausted never_relayed : CommandError

pub record GatewayCommand : Type 0 where
  pub command_id : ℕ
  pub gateway_mac : Text
  pub command_type : Text
  pub payload_json : Text
  pub status : CommandStatus
  pub attempts : ℕ
  pub max_attempts : ℕ
  pub next_retry_at : Option ℕ
  pub sent_at : Option ℕ
  pub created_at : ℕ
  pub error_message : Option CommandError
  pub ack_status : Option Text
  pub ack_detail : Option Text
  pub ack_received_at : Option ℕ

-- The settings of platform/fmp/core/config.py.
abbrev pub backoff_base : ℕ
backoff_base = 60

abbrev pub backoff_max : ℕ
backoff_max = 900

abbrev pub pending_ttl : ℕ
pending_ttl = 120

-- `compute_backoff`; for no attempt the power is one half.
unfoldable pub compute_backoff : (attempts : ℕ) → ℕ
compute_backoff zero = 30
compute_backoff (suc n) = min (backoff_base * 2 ^ n) backoff_max

-- `next_retry_datetime`
abbrev pub next_retry_datetime : (now attempts : ℕ) → ℕ
next_retry_datetime now attempts = now + compute_backoff attempts

-- What `_mark_sent` sets in the row of the command.
unfoldable pub marked_sent : ℕ → GatewayCommand → GatewayCommand
marked_sent now c = record c {
  status = sent;
  sent_at = some now;
  attempts = c.attempts + 1;
  next_retry_at = some (next_retry_datetime now (c.attempts + 1));
}

-- `_mark_sent`: nothing for an unknown id
unfoldable pub mark_sent : ℕ → (command_id : ℕ) → List GatewayCommand → List GatewayCommand
mark_sent now id [] = []
mark_sent now id (c ∷ cs) =
    (if c.command_id == id then marked_sent now c else c) ∷ mark_sent now id cs

abbrev pub is_sent : CommandStatus → Bool
is_sent sent = true
is_sent _ = false

abbrev pub is_pending : CommandStatus → Bool
is_pending pending = true
is_pending _ = false

abbrev pub is_before : Option ℕ → ℕ → Bool
is_before none now = false
is_before (some t) now = ltb t now

-- `status == "sent"`, and `next_retry_at` set and past
abbrev pub is_overdue : ℕ → GatewayCommand → Bool
is_overdue now c = is_sent c.status && is_before c.next_retry_at now

-- the selection of the retries
abbrev pub is_retried : ℕ → GatewayCommand → Bool
is_retried now c = is_overdue now c && ltb c.attempts c.max_attempts

abbrev pub is_expired : ℕ → GatewayCommand → Bool
is_expired now c = is_pending c.status && ltb (c.created_at + pending_ttl) now

unfoldable pub retried_row : ℕ → GatewayCommand → GatewayCommand
retried_row now c = record c {
  attempts = c.attempts + 1;
  next_retry_at = some (next_retry_datetime now (c.attempts + 1));
}

abbrev pub frame_of : ℕ → GatewayCommand → Frame
frame_of now c = record {
  command_id = c.command_id;
  gateway_mac = c.gateway_mac;
  type = c.command_type;
  payload = c.payload_json;
  issued_at = now;
  attempts = none;
}

-- The first loop: the overdue commands with attempts left go out again.
unfoldable pub retry : ℕ → List GatewayCommand → Queues → List GatewayCommand × Queues
retry now [] q = ([], q)
retry now (c ∷ cs) q =
    let again = is_retried now c in
    let rest = retry now cs (if again then enqueue_command (frame_of now c) q else q) in
    ((if again then retried_row now c else c) ∷ rest.0, rest.1)

abbrev pub failed_with : CommandError → GatewayCommand → GatewayCommand
failed_with e c = record c { status = failed; error_message = some e }

-- The second loop, on the rows that the first has written.
unfoldable pub exhaust : ℕ → GatewayCommand → GatewayCommand
exhaust now c =
    if is_overdue now c && leb c.max_attempts c.attempts
    then failed_with attempts_exhausted c
    else c

-- The third loop.
unfoldable pub expire : ℕ → GatewayCommand → GatewayCommand
expire now c = if is_expired now c then failed_with never_relayed c else c

unfoldable pub sweep_rows : ℕ → List GatewayCommand → List GatewayCommand
sweep_rows now [] = []
sweep_rows now (c ∷ cs) = expire now (exhaust now c) ∷ sweep_rows now cs

-- `_scan_and_sweep`
unfoldable pub scan_and_sweep : ℕ → List GatewayCommand → Queues → List GatewayCommand × Queues
scan_and_sweep now cs q = let (rows, q') = retry now cs q in (sweep_rows now rows, q')
