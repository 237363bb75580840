-- ===== src/Ingestion/Routing/Exact.antt =====
-- A handler that is named for a gateway gets the messages on the topic of that gateway, and no other.
use mathlib.Core.List.{reverse-append}
use fuel_monitoring.Prelude.{
  ap, ◌∙◌, sym, ◌≡◌, refl, ◌≢◌, ◌&&◌, Option, none, some, ◌∷◌, ◌++◌, Text, codes, text_eq, reverse,
  All, arith, Bool-cases, inl, inr, ◌↔◌,
}
use fuel_monitoring.Relay.Topics.{
  Kind, readings, status, fuel_topic, ack_topic_for, parse_fuel_topic, parse_command_ack_topic,
  parse-topic,
}
use fuel_monitoring.Relay.Topics.Inverse.{
  kind_text, parse_fuel_topic-inverse, parse_command_ack_topic-inverse,
}
use fuel_monitoring.Ingestion.Routing.{
  enqueue, heartbeat, command_ack, starts_with, ends_with, route, ack_or_drop, by_kind,
  enqueue_or_drop,
}

reverse-fuel_topic :
    (mac kind : Text)
    → reverse (fuel_topic mac kind) ≡ reverse (b'/' ∷ kind) ++ reverse (codes "fuel/" ++ mac)
reverse-fuel_topic mac kind = reverse-append (codes "fuel/" ++ mac) (b'/' ∷ kind)

module _ (mac : Text) (h : All (λ x. x ≢ b'/') mac) where
  route-readings : route (fuel_topic mac (codes "readings")) ≡ enqueue mac
  unfolding route starts_with
  route-readings = rw (reverse-fuel_topic mac (codes "readings"), (parse-topic mac h).1) refl

  route-status : route (fuel_topic mac (codes "status")) ≡ heartbeat mac
  unfolding route starts_with text_eq
  route-status = rw (reverse-fuel_topic mac (codes "status"), (parse-topic mac h).2) refl

  route-ack : route (ack_topic_for mac) ≡ command_ack mac
  unfolding route starts_with text_eq
  route-ack = rw (reverse-fuel_topic mac (codes "command/ack"), (parse-topic mac h).0) refl

  ack-enqueue : (o : Option Text) → ack_or_drop o ≡ enqueue mac → ⊥
  ack-enqueue none e = ground arith
  ack-enqueue (some m) e = ground arith

  ack-heartbeat : (o : Option Text) → ack_or_drop o ≡ heartbeat mac → ⊥
  ack-heartbeat none e = ground arith
  ack-heartbeat (some m) e = ground arith

  ack-inverse : (o : Option Text) → ack_or_drop o ≡ command_ack mac → o ≡ some mac
  ack-inverse none e = ground arith
  ack-inverse (some m) e = ground arith

  kind-ack : (o : Option (Text × Kind)) → by_kind o ≡ command_ack mac → ⊥
  kind-ack none e = ground arith
  kind-ack (some (m, status)) e = ground arith
  kind-ack (some (m, readings)) e = ground arith

  enqueue-ack : (o : Option (Text × Kind)) → enqueue_or_drop o ≡ command_ack mac → ⊥
  enqueue-ack none e = ground arith
  enqueue-ack (some (m, k)) e = ground arith

  enqueue-heartbeat : (o : Option (Text × Kind)) → enqueue_or_drop o ≡ heartbeat mac → ⊥
  enqueue-heartbeat none e = ground arith
  enqueue-heartbeat (some (m, k)) e = ground arith

  enqueue-inverse :
      (o : Option (Text × Kind))
      → enqueue_or_drop o ≡ enqueue mac
      → (k : Kind) × (o ≡ some (mac, k))
  enqueue-inverse none e = absurd (ground arith)
  enqueue-inverse (some (m, k)) e = let same : m ≡ mac = ground arith in (k, rw same refl)

  kind-enqueue :
      (o : Option (Text × Kind)) → by_kind o ≡ enqueue mac → (k : Kind) × (o ≡ some (mac, k))
  kind-enqueue none e = absurd (ground arith)
  kind-enqueue (some (m, status)) e = absurd (ground arith)
  kind-enqueue (some (m, readings)) e =
      let same : m ≡ mac = ground arith in (readings, rw same refl)

  kind-heartbeat : (o : Option (Text × Kind)) → by_kind o ≡ heartbeat mac → o ≡ some (mac, status)
  kind-heartbeat none e = ground arith
  kind-heartbeat (some (m, readings)) e = ground arith
  kind-heartbeat (some (m, status)) e = let same : m ≡ mac = ground arith in rw same refl

  command_ack-only : (t : Text) → route t ≡ command_ack mac → parse_command_ack_topic t ≡ some mac
  unfolding route
  command_ack-only t e = ground (
    arith,
    ack-inverse (parse_command_ack_topic t),
    kind-ack (parse_fuel_topic t),
    enqueue-ack (parse_fuel_topic t),
  )

  heartbeat-only : (t : Text) → route t ≡ heartbeat mac → parse_fuel_topic t ≡ some (mac, status)
  unfolding route
  heartbeat-only t e = ground (
    arith,
    ack-heartbeat (parse_command_ack_topic t),
    kind-heartbeat (parse_fuel_topic t),
    enqueue-heartbeat (parse_fuel_topic t),
  )

  enqueue-parsed :
      (t : Text) → route t ≡ enqueue mac → (k : Kind) × (parse_fuel_topic t ≡ some (mac, k))
  unfolding route
  enqueue-parsed t e =
      let o = parse_fuel_topic t in
      elim (Bool-cases (starts_with (codes "fuel/") t && ends_with (codes "/readings") t)) [
        | inl y ↦ enqueue-inverse o (let r : enqueue_or_drop o ≡ enqueue mac = ground arith in r)
        | inr n ↦ kind-enqueue o (
            let r : by_kind o ≡ enqueue mac =
              ground (arith, ack-enqueue (parse_command_ack_topic t)) in
            r)
      ]

  enqueue-only :
      (t : Text) (k : Kind)
      → route t ≡ enqueue mac
      → t ≡ fuel_topic mac (kind_text k)
      → t ≡ fuel_topic mac (codes "readings")
  enqueue-only t readings e same = same
  enqueue-only t status e same =
      let clash : enqueue mac ≡ heartbeat mac = sym e ∙ (ap route same ∙ route-status) in
      absurd (ground arith)

  -- For a gateway whose name holds no slash: a message is queued as its reading exactly when its topic
  -- is that of the gateway's readings, taken as its heartbeat exactly on the topic of its status, and
  -- as its acknowledgement exactly on the topic of its acknowledgements.
  pub route_exact :
      (t : Text)
      → ((route t ≡ enqueue mac) ↔ (t ≡ fuel_topic mac (codes "readings")))
        × ((route t ≡ heartbeat mac) ↔ (t ≡ fuel_topic mac (codes "status")))
        × ((route t ≡ command_ack mac) ↔ (t ≡ ack_topic_for mac))
  route_exact t = (
    (
      λ e.
          let (k, parsed) = enqueue-parsed t e in
          enqueue-only t k e (parse_fuel_topic-inverse t mac k parsed),
      λ s. ap route s ∙ route-readings,
    ),
    (
      λ e. parse_fuel_topic-inverse t mac status (heartbeat-only t e),
      λ s. ap route s ∙ route-status,
    ),
    (
      λ e. parse_command_ack_topic-inverse t mac (command_ack-only t e),
      λ s. ap route s ∙ route-ack,
    ),
  )
