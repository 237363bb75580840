-- ===== src/Ingestion/Acks.antt =====
-- `_handle_command_ack` of platform/fmp/ingestion/main.py: what a gateway's answer does to the command.
use fuel_monitoring.Prelude.{
  ℕ, Bool, true, Option, none, some, List, [], ◌∷◌, Text, codes, text_eq, ◌==◌, if◌then◌else◌,
}
use fuel_monitoring.Relay.Rows.{GatewayCommand, acked, rejected}
use fuel_monitoring.Ingestion.DeadLetters.{
  DeadLetter, Reason, missing_or_bad_status, not_a_uuid, dead_letter,
}

-- The entries of the payload that are read: `command_id` as `str` gives it, none when it is missing
-- or false; `status` and `detail` when they are texts.
pub record AckPayload : Type 0 where
  pub command_id : Option Text
  pub status : Option Text
  pub detail : Option Text

pub record IoTGateway : Type 0 where
  pub gateway_mac : Text
  pub is_online : Bool
  pub last_seen : Option ℕ
  pub is_active : Bool
  pub firmware_version : Option Text

-- The tables, and the ring of rejected frames. The gateway of a command is found by its address.
pub record AckState : Type 0 where
  pub commands : List GatewayCommand
  pub gateways : List IoTGateway
  pub dead : List DeadLetter

pub data AckStatus : Type 0 where
  executed refused : AckStatus

abbrev pub ack_status_of : Option Text → Option AckStatus
ack_status_of none = none
ack_status_of (some t) =
    if text_eq t (codes "executed")
    then some executed
    else if text_eq t (codes "rejected")
    then some refused
    else none

abbrev pub name_of : AckStatus → Text
name_of executed = codes "executed"
name_of refused = codes "rejected"

-- What an acknowledgement sets in the row of the command.
unfoldable pub acked_row : ℕ → AckStatus → Option Text → GatewayCommand → GatewayCommand
acked_row now s detail c = record c {
  status = elim s [ executed ↦ acked | refused ↦ rejected ];
  ack_status = some (name_of s);
  ack_detail = detail;
  ack_received_at = some now;
  next_retry_at = none;
}

-- `command_id` is unique in the table.
unfoldable pub ack_rows :
    ℕ → ℕ → AckStatus → Option Text → List GatewayCommand → List GatewayCommand
ack_rows now id s detail [] = []
ack_rows now id s detail (c ∷ cs) =
    (if c.command_id == id then acked_row now s detail c else c) ∷ ack_rows now id s detail cs

abbrev seen_row : ℕ → IoTGateway → IoTGateway
seen_row now g = record g { is_online = true; last_seen = some now }

-- the gateway that owns the command
unfoldable pub see_gateway : ℕ → Text → List IoTGateway → List IoTGateway
see_gateway now mac [] = []
see_gateway now mac (g ∷ gs) =
    (if text_eq g.gateway_mac mac then seen_row now g else g) ∷ see_gateway now mac gs

unfoldable pub find_command : ℕ → List GatewayCommand → Option GatewayCommand
find_command id [] = none
find_command id (c ∷ cs) = if c.command_id == id then some c else find_command id cs

abbrev reject : ℕ → Text → Reason → AckState → AckState
reject now mac why st = record st {
  dead = dead_letter (record { at = now; gateway_mac = mac; reason = why }) st.dead;
}

-- `uuid_of` is `uuid.UUID(str(...))`.
module _ (uuid_of : Text → Option ℕ) (now : ℕ) (gateway_mac : Text) where
  abbrev apply_ack : ℕ → AckStatus → Option Text → Option GatewayCommand → AckState → AckState
  apply_ack id s detail none st = st
  apply_ack id s detail (some c) st = record st {
    commands = ack_rows now id s detail st.commands;
    gateways = see_gateway now c.gateway_mac st.gateways;
  }

  abbrev ack_known_id : Text → AckStatus → Option Text → Option ℕ → AckState → AckState
  ack_known_id cid s detail none st = reject now gateway_mac (not_a_uuid cid) st
  ack_known_id cid s detail (some id) st = apply_ack id s detail (find_command id st.commands) st

  abbrev ack_entries : Option Text → Option AckStatus → Option Text → AckState → AckState
  ack_entries (some (x ∷ cid)) (some s) detail st =
      ack_known_id (x ∷ cid) s detail (uuid_of (x ∷ cid)) st
  ack_entries _ _ detail st = reject now gateway_mac missing_or_bad_status st

  -- `_handle_command_ack`, for an ack on the topic of `gateway_mac`
  unfoldable pub handle_command_ack : AckPayload → AckState → AckState
  handle_command_ack p st = ack_entries p.command_id (ack_status_of p.status) p.detail st
