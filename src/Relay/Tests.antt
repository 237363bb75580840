-- ===== src/Relay/Tests.antt =====
-- Queues and rows at work, and the relay theorems at them.
use fuel_monitoring.Prelude.{
  refl, true, false, List, text_eq, arith, ℕ, ◌+◌, ◌≡◌, none, some, [], ◌∷◌, codes, All,
}
use fuel_monitoring.Relay.Queue.{relay_round, Frame, Queues, sent, not_accepted, relay_rounds}
use fuel_monitoring.Relay.Rows.{
  GatewayCommand, scan_and_sweep, mark_sent, marked_sent, frame_of, compute_backoff, backoff_max,
}
use fuel_monitoring.Relay.Rows
use fuel_monitoring.Auth.Login.{User, answer, refused}
use fuel_monitoring.Auth.Sessions.{tenant_scope, is_platform, require_roles}
use fuel_monitoring.Relay.Issue.{Target, Commands, get_gateway, visible_gateways, issue_command}
use fuel_monitoring.Relay.Issue.Revived.{expired_is_revived}
use fuel_monitoring.Relay.Flow.{held, count_published, relay_rounds-held}
use fuel_monitoring.Relay.Sweep.{IsSettledAt, scan_and_sweep-IsSettledAt}

abbrev frame : ℕ → Frame
frame id = record {
  command_id = id;
  gateway_mac = codes "aa:bb";
  type = codes "ping";
  payload = codes "{}";
  issued_at = 10;
  attempts = none;
}

abbrev waiting : Queues
waiting = record { outbound = frame 2 ∷ frame 1 ∷ []; inflight = frame 9 ∷ [] }

relay_rounds-held_example :
    let (after, ps) = relay_rounds (not_accepted ∷ sent ∷ []) waiting in
    held 1 after + count_published 1 ps ≡ held 1 waiting
relay_rounds-held_example = relay_rounds-held 1 (not_accepted ∷ sent ∷ []) waiting (tt, (tt, tt))

abbrev row : GatewayCommand
row = record {
  command_id = 1;
  gateway_mac = codes "aa:bb";
  command_type = codes "ping";
  payload_json = codes "{}";
  status = Rows.sent;
  attempts = 2;
  max_attempts = 3;
  next_retry_at = some 500;
  sent_at = some 440;
  created_at = 300;
  error_message = none;
  ack_status = none;
  ack_detail = none;
  ack_received_at = none;
}

scan_and_sweep-IsSettledAt_example :
    All (IsSettledAt 1000) (scan_and_sweep 1000 (row ∷ record row { attempts = 3 } ∷ []) waiting).0
scan_and_sweep-IsSettledAt_example =
    scan_and_sweep-IsSettledAt 1000 (row ∷ record row { attempts = 3 } ∷ []) waiting

abbrev admin : User
admin = record {
  id = 1;
  username = codes "alice";
  password_hash = codes "x";
  role = codes "admin";
  company_id = none;
  is_active = true;
  deleted_at = none;
  last_login = none;
}

abbrev gateway : Target
gateway = record { id = 7; gateway_mac = codes "aa:bb"; is_active = true; company_id = some 2 }

abbrev commands : Commands
commands = record { rows = row ∷ []; queues = record { outbound = []; inflight = [] } }

admin_may : text_eq admin.role (codes "admin") ≡ true
unfolding text_eq
admin_may = refl

gateway_seen : get_gateway (tenant_scope admin) [] 7 (gateway ∷ []) ≡ answer gateway
unfolding get_gateway visible_gateways is_platform text_eq
gateway_seen = refl

inactive_refused :
    issue_command 100 5 true
      (codes "reboot")
      (codes "{}")
      admin
      []
      (record gateway { is_active = false } ∷ [])
      7
      commands
    ≡ (refused 409, commands)
unfolding issue_command require_roles get_gateway visible_gateways is_platform text_eq
inactive_refused = refl

expired_is_revived_example :
    let (response, st') =
      issue_command 100 5 true (codes "reboot") (codes "{}") admin [] (gateway ∷ []) 7 commands in
    let (rows, queues) = scan_and_sweep 400 st'.rows st'.queues in
    (swept : GatewayCommand) × (rest : List GatewayCommand) × (response ≡ answer 5)
    × (rows ≡ swept ∷ rest)
    × (swept.status ≡ Rows.failed)
    × ((relay_round sent queues).1 ≡ record { command_id = 5; attempts = 1 } ∷ [])
    × (mark_sent 400 5 rows ≡ marked_sent 400 swept ∷ mark_sent 400 5 rest)
expired_is_revived_example =
    expired_is_revived 100 400 5 (codes "reboot") (codes "{}") gateway admin [] (gateway ∷ []) 7
      commands admin_may gateway_seen refl refl (omega arith)
