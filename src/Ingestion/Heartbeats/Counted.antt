-- ===== src/Ingestion/Heartbeats/Counted.antt =====
-- When a heartbeat counts.
use fuel_monitoring.Prelude.{
  ap, ◌∙◌, ℕ, ◌≤◌, ◌≡◌, refl, inl, inr, true, Option, some, List, [], ◌∷◌, Text, text_eq,
  text_eq_refl, length, All, ◌==◌, arith, Bool-cases,
}
use fuel_monitoring.Ingestion.Acks.{IoTGateway}
use fuel_monitoring.Ingestion.Heartbeats.{
  Installation, TankStatus, Rows, no_row, many_rows, one_row, found_rows, or_rolled_back,
  with_gateways, hear, gateways_of, tanks_of, heard_row, registered_row, hear_gateway,
  handle_status, is_on_gateway, connect_tank, connected_row,
}

heard_rows : ℕ → Option Text → List IoTGateway → List IoTGateway
heard_rows now firmware [] = []
heard_rows now firmware (g ∷ gs) = heard_row now firmware g ∷ heard_rows now firmware gs

gateways_of-hear_gateway :
    (now : ℕ) (mac : Text) (firmware : Option Text) (gs : List IoTGateway)
    → gateways_of mac (hear_gateway now mac firmware gs)
      ≡ heard_rows now firmware (gateways_of mac gs)
unfolding hear_gateway heard_row heard_rows
gateways_of-hear_gateway now mac firmware [] = refl
gateways_of-hear_gateway now mac firmware (g ∷ gs) =
    let rest = gateways_of-hear_gateway now mac firmware gs in
    elim (Bool-cases (text_eq g.gateway_mac mac)) [
      | inl y ↦ simp (y, rest)
      | inr n ↦ simp (n, rest)
    ]

tanks_of-connect_tank :
    (now : ℕ) (mac : Text) (id : ℕ) (ts : List TankStatus)
    → tanks_of mac (connect_tank now id ts) ≡ connect_tank now id (tanks_of mac ts)
unfolding connect_tank
tanks_of-connect_tank now mac id [] = refl
tanks_of-connect_tank now mac id (t ∷ ts) =
    let rest = tanks_of-connect_tank now mac id ts in
    elim (Bool-cases (t.id == id)) [
      | inl same ↦ elim (Bool-cases (is_on_gateway mac t.gateway_mac)) [
        | inl y ↦ simp (same, y, rest)
        | inr n ↦ simp (same, n, rest)
      ]
      | inr other ↦ elim (Bool-cases (is_on_gateway mac t.gateway_mac)) [
        | inl y ↦ simp (other, y, rest)
        | inr n ↦ simp (other, n, rest)
      ]
    ]

-- A tank that the gateway was heard for
abbrev pub IsConnected : ℕ → TankStatus → Type 0
IsConnected now t = (t.is_online ≡ true) × (t.last_connection ≡ some now)

-- The gateway's one row after a heartbeat that counts.
abbrev pub IsHeard : ℕ → Text → List IoTGateway → Type 0
IsHeard now mac gs =
    (g : IoTGateway) × (gateways_of mac gs ≡ g ∷ [])
    × (g.is_online ≡ true)
    × (g.last_seen ≡ some now)

module _ (now : ℕ) (mac : Text) (firmware : Option Text) (st : Installation) where
  registered_row-IsHeard :
      gateways_of mac st.gateways ≡ []
      → IsHeard now mac (registered_row now mac firmware ∷ st.gateways)
  unfolding registered_row
  registered_row-IsHeard none_yet =
      (registered_row now mac firmware, rw (text_eq_refl mac, none_yet) refl, refl, refl)

  hear_gateway-IsHeard :
      (g : IoTGateway)
      → gateways_of mac st.gateways ≡ g ∷ []
      → IsHeard now mac (hear_gateway now mac firmware st.gateways)
  unfolding heard_row heard_rows
  hear_gateway-IsHeard g known = (
    heard_row now firmware g,
    gateways_of-hear_gateway now mac firmware st.gateways ∙ ap (heard_rows now firmware) known,
    refl,
    refl,
  )

  connect_tank-IsConnected :
      (t : TankStatus)
      → tanks_of mac st.tanks ≡ t ∷ []
      → All (IsConnected now) (tanks_of mac (connect_tank now t.id st.tanks))
  connect_tank-IsConnected t only =
      let same : (t.id == t.id) ≡ true = ground arith in
      let after : tanks_of mac (connect_tank now t.id st.tanks) ≡ connected_row now t ∷ [] =
        tanks_of-connect_tank now mac t.id st.tanks
        ∙ (ap (connect_tank now t.id) only ∙ (unfold connect_tank in rw same refl)) in
      rw after ((refl, refl), tt)

  lost_with :
      (r : Rows IoTGateway)
      → or_rolled_back st (with_gateways now many_rows st (hear now mac firmware r st.gateways))
        ≡ st
  lost_with no_row = refl
  lost_with many_rows = refl
  lost_with (one_row g) = refl

  -- With two tanks on a gateway its heartbeat raises, and nothing is written.
  pub handle_status_lost :
      (a b : TankStatus) (more : List TankStatus)
      → tanks_of mac st.tanks ≡ a ∷ b ∷ more
      → handle_status now mac firmware st ≡ st
  unfolding handle_status
  handle_status_lost a b more two = rw two (lost_with (found_rows (gateways_of mac st.gateways)))

  counted_with :
      (gs : List IoTGateway) (ts : List TankStatus)
      → gateways_of mac st.gateways ≡ gs
      → tanks_of mac st.tanks ≡ ts
      → length gs ≤ 1
      → length ts ≤ 1
      → let after = or_rolled_back st (
          with_gateways now
            (found_rows ts)
            st
            (hear now mac firmware (found_rows gs) st.gateways)) in
        IsHeard now mac after.gateways × All (IsConnected now) (tanks_of mac after.tanks)
  counted_with [] [] e f h k = (registered_row-IsHeard e, rw f tt)
  counted_with [] (t ∷ []) e f h k = (registered_row-IsHeard e, connect_tank-IsConnected t f)
  counted_with (g ∷ []) [] e f h k = (hear_gateway-IsHeard g e, rw f tt)
  counted_with (g ∷ []) (t ∷ []) e f h k = (hear_gateway-IsHeard g e, connect_tank-IsConnected t f)
  counted_with gs (t ∷ u ∷ ts) e f h k = absurd (omega arith)
  counted_with (a ∷ g ∷ gs) ts e f h k = absurd (omega arith)

  -- When the table has no row of a gateway or one, and no tank or one is on it, its heartbeat leaves
  -- exactly one row of the gateway, which is online and was seen at that moment, and any tank on it
  -- online and connected at that moment.
  pub handle_status-counts :
      length (gateways_of mac st.gateways) ≤ 1
      → length (tanks_of mac st.tanks) ≤ 1
      → let after = handle_status now mac firmware st in
        IsHeard now mac after.gateways × All (IsConnected now) (tanks_of mac after.tanks)
  unfolding handle_status
  handle_status-counts known few =
      counted_with (gateways_of mac st.gateways) (tanks_of mac st.tanks) refl refl known few
