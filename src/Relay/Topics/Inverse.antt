-- ===== src/Relay/Topics/Inverse.antt =====
-- Only the topic of a gateway is read as one of the gateway.
use fuel_monitoring.Prelude.{
  ap, ◌∙◌, sym, ◌≡◌, refl, inl, inr, Option, none, some, List, [], ◌∷◌, ◌++◌, ℕ, Text, codes,
  text_eq→eq, arith, ◌==◌, Bool-cases,
}
use fuel_monitoring.Security.{split}
use fuel_monitoring.Relay.Topics.{
  Kind, readings, status, fuel_topic, ack_topic_for, ack_parts, kind_of, with_mac, fuel_parts,
  parse_fuel_topic, parse_command_ack_topic,
}

-- `sep.join(parts)`
abbrev pub joined : ℕ → List Text → Text
joined sep [] = []
joined sep (p ∷ []) = p
joined sep (p ∷ q ∷ ps) = p ++ sep ∷ joined sep (q ∷ ps)

split-IsCons : (sep : ℕ) (s : Text) → (q : Text) × (qs : List Text) × (split sep s ≡ q ∷ qs)
unfolding split
split-IsCons sep [] = ([], [], refl)
split-IsCons sep (x ∷ s) =
    let (q, qs, e) = split-IsCons sep s in
    elim (Bool-cases (x == sep)) [
      | inl y ↦ ([], split sep s, rw y refl)
      | inr n ↦ (x ∷ q, qs, rw (n, e) refl)
    ]

joined-cons_first :
    (sep x : ℕ) (q : Text) (qs : List Text) → joined sep ((x ∷ q) ∷ qs) ≡ x ∷ joined sep (q ∷ qs)
joined-cons_first sep x q [] = refl
joined-cons_first sep x q (p ∷ ps) = refl

joined-split : (sep : ℕ) (s : Text) → joined sep (split sep s) ≡ s
unfolding split
joined-split sep [] = refl
joined-split sep (x ∷ s) =
    let (q, qs, e) = split-IsCons sep s in
    let back : joined sep (q ∷ qs) ≡ s = sym (ap (joined sep) e) ∙ joined-split sep s in
    elim (Bool-cases (x == sep)) [
      | inl y ↦
          rw (y, e)
            (ap (λ (t : Text). sep ∷ t) back
              ∙ ap (λ (c : ℕ). c ∷ s) (let same : sep ≡ x = ground arith in same))
      | inr n ↦ rw (n, e) (joined-cons_first sep x q qs ∙ ap (λ (t : Text). x ∷ t) back)
    ]

abbrev pub kind_text : Kind → Text
kind_text readings = codes "readings"
kind_text status = codes "status"

kind_of-inverse : (t : Text) (k : Kind) → kind_of t ≡ some k → t ≡ kind_text k
kind_of-inverse t readings h = text_eq→eq t (codes "readings") (ground arith)
kind_of-inverse t status h = text_eq→eq t (codes "status") (ground arith)

with_mac-inverse :
    (b : Text) (o : Option Kind) (mac : Text) (k : Kind)
    → with_mac b o ≡ some (mac, k)
    → (b ≡ mac) × (o ≡ some k)
with_mac-inverse b none mac k h = ground arith
with_mac-inverse b (some j) mac k h =
    let same : (b, j) ≡ (mac, k) = ground arith in
    (ap (λ (p : Text × Kind). p.0) same, ap (λ (p : Text × Kind). some p.1) same)

fuel_parts-inverse :
    (l : List Text) (mac : Text) (k : Kind)
    → fuel_parts l ≡ some (mac, k)
    → l ≡ codes "fuel" ∷ mac ∷ kind_text k ∷ []
fuel_parts-inverse [] mac k h = ground arith
fuel_parts-inverse (a ∷ []) mac k h = ground arith
fuel_parts-inverse (a ∷ b ∷ []) mac k h = ground arith
fuel_parts-inverse (a ∷ b ∷ c ∷ []) mac k h =
    let first : a ≡ codes "fuel" = text_eq→eq a (codes "fuel") (ground arith) in
    let (mid, last) = with_mac-inverse b (kind_of c) mac k (ground arith) in
    rw (first, mid, kind_of-inverse c k last) refl
fuel_parts-inverse (a ∷ b ∷ c ∷ d ∷ l) mac k h = ground arith

ack_parts-inverse :
    (l : List Text) (mac : Text)
    → ack_parts l ≡ some mac
    → l ≡ codes "fuel" ∷ mac ∷ codes "command" ∷ codes "ack" ∷ []
ack_parts-inverse [] mac h = ground arith
ack_parts-inverse (a ∷ []) mac h = ground arith
ack_parts-inverse (a ∷ b ∷ []) mac h = ground arith
ack_parts-inverse (a ∷ b ∷ c ∷ []) mac h = ground arith
ack_parts-inverse (a ∷ b ∷ c ∷ d ∷ []) mac h =
    let first : a ≡ codes "fuel" = text_eq→eq a (codes "fuel") (ground arith) in
    let third : c ≡ codes "command" = text_eq→eq c (codes "command") (ground arith) in
    let fourth : d ≡ codes "ack" = text_eq→eq d (codes "ack") (ground arith) in
    let mid : b ≡ mac = ground arith in rw (first, mid, third, fourth) refl
ack_parts-inverse (a ∷ b ∷ c ∷ d ∷ e ∷ l) mac h = ground arith

pub parse_fuel_topic-inverse :
    (t mac : Text) (k : Kind)
    → parse_fuel_topic t ≡ some (mac, k)
    → t ≡ fuel_topic mac (kind_text k)
unfolding parse_fuel_topic
parse_fuel_topic-inverse t mac k h =
    sym (joined-split b'/' t) ∙ ap (joined b'/') (fuel_parts-inverse (split b'/' t) mac k h)

pub parse_command_ack_topic-inverse :
    (t mac : Text) → parse_command_ack_topic t ≡ some mac → t ≡ ack_topic_for mac
unfolding parse_command_ack_topic
parse_command_ack_topic-inverse t mac h =
    sym (joined-split b'/' t) ∙ ap (joined b'/') (ack_parts-inverse (split b'/' t) mac h)
