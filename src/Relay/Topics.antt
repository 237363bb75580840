-- ===== src/Relay/Topics.antt =====
-- The topics of the command plane in platform/fmp/ingestion/relay.py, and `parse_fuel_topic` of
-- platform/fmp/ingestion/main.py.
pub mod Inverse
use fuel_monitoring.Prelude.{
  ap, ◌∙◌, ◌≡◌, refl, ◌≢◌, ◌&&◌, Option, none, some, List, [], ◌∷◌, ◌++◌, Text, codes, text_eq, All,
  arith, if◌then◌else◌, ap,
}
use fuel_monitoring.Security.{split}
use fuel_monitoring.Security.Codes.{split-part, split-no_sep}

-- `f"fuel/{gateway_mac}/" + kind`
abbrev pub fuel_topic : (gateway_mac kind : Text) → Text
fuel_topic mac kind = codes "fuel" ++ b'/' ∷ (mac ++ b'/' ∷ kind)

-- `command_topic_for` and `ack_topic_for`
abbrev pub command_topic_for : Text → Text
command_topic_for mac = fuel_topic mac (codes "command")

abbrev pub ack_topic_for : Text → Text
ack_topic_for mac = fuel_topic mac (codes "command/ack")

abbrev pub ack_parts : List Text → Option Text
ack_parts (a ∷ mac ∷ c ∷ d ∷ []) =
    if text_eq a (codes "fuel") && text_eq c (codes "command") && text_eq d (codes "ack")
    then some mac
    else none
ack_parts _ = none

-- `parse_command_ack_topic`
unfoldable pub parse_command_ack_topic : Text → Option Text
parse_command_ack_topic topic = ack_parts (split b'/' topic)

pub data Kind : Type 0 where
  readings status : Kind

abbrev pub kind_of : Text → Option Kind
kind_of t =
    if text_eq t (codes "readings")
    then some readings
    else if text_eq t (codes "status")
    then some status
    else none

abbrev pub with_mac : Text → Option Kind → Option (Text × Kind)
with_mac mac none = none
with_mac mac (some k) = some (mac, k)

abbrev pub fuel_parts : List Text → Option (Text × Kind)
fuel_parts (a ∷ mac ∷ kind ∷ []) =
    if text_eq a (codes "fuel") then with_mac mac (kind_of kind) else none
fuel_parts _ = none

-- `parse_fuel_topic`, without the `None` of its third part
unfoldable pub parse_fuel_topic : Text → Option (Text × Kind)
parse_fuel_topic topic = fuel_parts (split b'/' topic)

split-fuel_topic :
    (mac kind : Text)
    → All (λ x. x ≢ b'/') mac
    → split b'/' (fuel_topic mac kind) ≡ codes "fuel" ∷ mac ∷ split b'/' kind
split-fuel_topic mac kind h =
    split-part b'/' (codes "fuel") (mac ++ b'/' ∷ kind) (omega arith)
    ∙ ap (λ (l : List Text). codes "fuel" ∷ l) (split-part b'/' mac kind h)

split-command_ack : split b'/' (codes "command/ack") ≡ codes "command" ∷ codes "ack" ∷ []
split-command_ack =
    split-part b'/' (codes "command") (codes "ack") (omega arith)
    ∙ ap (λ (l : List Text). codes "command" ∷ l) (split-no_sep b'/' (codes "ack") (omega arith))

-- The topic of an acknowledgement or of readings gives back the gateway that it was made for, and
-- neither is taken for the other.
pub parse-topic :
    (mac : Text)
    → All (λ x. x ≢ b'/') mac
    → (parse_command_ack_topic (ack_topic_for mac) ≡ some mac)
      × (parse_fuel_topic (fuel_topic mac (codes "readings")) ≡ some (mac, readings))
      × (parse_fuel_topic (fuel_topic mac (codes "status")) ≡ some (mac, status))
      × (parse_fuel_topic (ack_topic_for mac) ≡ none)
      × (parse_command_ack_topic (command_topic_for mac) ≡ none)
unfolding parse_command_ack_topic parse_fuel_topic
parse-topic mac h = (
  rw (split-fuel_topic mac (codes "command/ack") h, split-command_ack) (unfold text_eq in refl),
  rw (split-fuel_topic mac (codes "readings") h, split-no_sep b'/' (codes "readings") (omega arith))
      (unfold text_eq in refl),
  rw (split-fuel_topic mac (codes "status") h, split-no_sep b'/' (codes "status") (omega arith))
      (unfold text_eq in refl),
  rw (split-fuel_topic mac (codes "command/ack") h, split-command_ack) refl,
  rw (split-fuel_topic mac (codes "command") h, split-no_sep b'/' (codes "command") (omega arith))
      refl,
)
