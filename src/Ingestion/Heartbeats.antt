-- ===== src/Ingestion/Heartbeats.antt =====
-- `_handle_status` of platform/fmp/ingestion/main.py: the heartbeat of a gateway.
pub mod Counted
use fuel_monitoring.Prelude.{
  ℕ, Bool, true, false, Option, none, some, List, [], ◌∷◌, Text, text_eq, keep_if, ◌==◌,
  if◌then◌else◌,
}
use fuel_monitoring.Ingestion.Acks.{IoTGateway}

-- The columns of a tank that a heartbeat reads and sets; a tank has a site.
pub record TankStatus : Type 0 where
  pub id : ℕ
  pub gateway_mac : Option Text
  pub site_id : ℕ
  pub is_online : Bool
  pub last_connection : Option ℕ

pub record StationStatus : Type 0 where
  pub id : ℕ
  pub site_id : ℕ
  pub last_heartbeat : Option ℕ

pub record Installation : Type 0 where
  pub gateways : List IoTGateway
  pub tanks : List TankStatus
  pub stations : List StationStatus

-- What `scalar_one_or_none` finds; many rows are an exception.
pub data Rows (A : Type 0) : Type 0 where
  no_row many_rows : Rows A
  one_row : A → Rows A

abbrev pub found_rows : {A : Type 0} → List A → Rows A
found_rows [] = no_row
found_rows (x ∷ []) = one_row x
found_rows (x ∷ y ∷ l) = many_rows

abbrev pub is_on_gateway : Text → Option Text → Bool
is_on_gateway mac none = false
is_on_gateway mac (some m) = text_eq m mac

abbrev pub gateways_of : Text → List IoTGateway → List IoTGateway
gateways_of mac gs = keep_if (λ g. text_eq g.gateway_mac mac) gs

abbrev pub tanks_of : Text → List TankStatus → List TankStatus
tanks_of mac ts = keep_if (λ t. is_on_gateway mac t.gateway_mac) ts

-- `if firmware`
abbrev or_known : Option Text → Option Text → Option Text
or_known none known = known
or_known (some []) known = known
or_known (some (c ∷ s)) known = some (c ∷ s)

unfoldable pub heard_row : ℕ → Option Text → IoTGateway → IoTGateway
heard_row now firmware g = record g {
  is_online = true;
  last_seen = some now;
  firmware_version = or_known firmware g.firmware_version;
}

-- A gateway that was not known is registered, but not active.
unfoldable pub registered_row : ℕ → Text → Option Text → IoTGateway
registered_row now mac firmware = record {
  gateway_mac = mac;
  is_online = true;
  last_seen = some now;
  is_active = false;
  firmware_version = firmware;
}

-- The `UPDATE` of the rows that were changed
unfoldable pub hear_gateway : ℕ → Text → Option Text → List IoTGateway → List IoTGateway
hear_gateway now mac firmware [] = []
hear_gateway now mac firmware (g ∷ gs) =
    (if text_eq g.gateway_mac mac then heard_row now firmware g else g)
    ∷ hear_gateway now mac firmware gs

abbrev pub connected_row : ℕ → TankStatus → TankStatus
connected_row now t = record t { is_online = true; last_connection = some now }

unfoldable pub connect_tank : ℕ → (id : ℕ) → List TankStatus → List TankStatus
connect_tank now id [] = []
connect_tank now id (t ∷ ts) =
    (if t.id == id then connected_row now t else t) ∷ connect_tank now id ts

-- The station that `limit(1)` takes; the query has no order, and the first one is taken here.
unfoldable pub beat_station : ℕ → (site : ℕ) → List StationStatus → List StationStatus
beat_station now site [] = []
beat_station now site (s ∷ ss) =
    let rest = beat_station now site ss in
    if s.site_id == site then record s { last_heartbeat = some now } ∷ ss else s ∷ rest

abbrev pub hear :
    ℕ → Text → Option Text → Rows IoTGateway → List IoTGateway → Option (List IoTGateway)
hear now mac firmware many_rows gs = none
hear now mac firmware no_row gs = some (registered_row now mac firmware ∷ gs)
hear now mac firmware (one_row g) gs = some (hear_gateway now mac firmware gs)

abbrev beat : ℕ → Rows TankStatus → Installation → Option Installation
beat now many_rows st = none
beat now no_row st = some st
beat now (one_row t) st = some (record st {
  tanks = connect_tank now t.id st.tanks;
  stations = beat_station now t.site_id st.stations;
})

-- The commit, or an exception that rolls all back and that `_route` logs
abbrev pub or_rolled_back : Installation → Option Installation → Installation
or_rolled_back st none = st
or_rolled_back st (some st') = st'

abbrev pub with_gateways :
    ℕ → Rows TankStatus → Installation → Option (List IoTGateway) → Option Installation
with_gateways now tank st none = none
with_gateways now tank st (some gs) = beat now tank (record st { gateways = gs })

-- `_handle_status`, as `_route` calls it
unfoldable pub handle_status :
    ℕ → (mac : Text) → (firmware : Option Text) → Installation → Installation
handle_status now mac firmware st = or_rolled_back st (
    with_gateways now (found_rows (tanks_of mac st.tanks)) st
      (hear now mac firmware (found_rows (gateways_of mac st.gateways)) st.gateways))
