-- ===== src/Ingestion/Routing.antt =====
-- `_route` of platform/fmp/ingestion/main.py: which handler a message of the broker goes to.
pub mod Exact
use fuel_monitoring.Prelude.{
  Bool, true, false, ◌&&◌, Option, none, some, [], ◌∷◌, Text, codes, text_eq, reverse, ◌==◌,
  if◌then◌else◌,
}
use fuel_monitoring.Relay.Topics.{Kind, readings, status, parse_fuel_topic, parse_command_ack_topic}

-- Where a message goes: to the queue of readings as a frame of a gateway, to one of the handlers, or
-- nowhere, with a warning or without.
pub data Route : Type 0 where
  enqueue heartbeat command_ack : (gateway_mac : Text) → Route
  complete validate reading malformed unhandled : Route

unfoldable pub starts_with : Text → Text → Bool
starts_with [] t = true
starts_with (c ∷ s) [] = false
starts_with (c ∷ s) (d ∷ t) = c == d && starts_with s t

abbrev pub ends_with : Text → Text → Bool
ends_with s t = starts_with (reverse s) (reverse t)

abbrev pub enqueue_or_drop : Option (Text × Kind) → Route
enqueue_or_drop none = malformed
enqueue_or_drop (some (mac, k)) = enqueue mac

abbrev pub ack_or_drop : Option Text → Route
ack_or_drop none = malformed
ack_or_drop (some mac) = command_ack mac

abbrev pub by_kind : Option (Text × Kind) → Route
by_kind none = malformed
by_kind (some (mac, status)) = heartbeat mac
by_kind (some (mac, readings)) = enqueue mac

-- The branches after that of the readings
abbrev pub by_topic : Text → Route
by_topic topic =
    if text_eq topic (codes "ingestion/dispense/complete")
    then complete
    else if text_eq topic (codes "ingestion/dispense/validate")
    then validate
    else if starts_with (codes "fuel/") topic && ends_with (codes "/command/ack") topic
    then ack_or_drop (parse_command_ack_topic topic)
    else if starts_with (codes "fuel/") topic
    then by_kind (parse_fuel_topic topic)
    else if starts_with (codes "ingestion/readings") topic
    then reading
    else unhandled

unfoldable pub route : Text → Route
route topic =
    if starts_with (codes "fuel/") topic && ends_with (codes "/readings") topic
    then enqueue_or_drop (parse_fuel_topic topic)
    else by_topic topic
