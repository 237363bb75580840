-- ===== src/Ingestion/Resolve/Mixing.antt =====
-- What the caches make of a gateway with two tanks, and of a tank without a company.
use fuel_monitoring.Prelude.{
  ap, All, inl, inr, ◌⊎◌, ◌∙◌, ◌≡◌, refl, ◌≢◌, none, some, List, [], ◌∷◌, ◌++◌, Text, text_eq,
  keep_if, arith,
}
use fuel_monitoring.Prelude.Dict.{lookup, lookup-insert_self}
use fuel_monitoring.Redis.{Redis, RedisLaws}
use fuel_monitoring.Ingestion.Resolve.{
  Resolution, Tank, Names, matched, Caches, one, null_marker, serial_cache_key, gateway_cache_key,
  neg_cache_key, company_cache_key, tank_cache_ttl, json_dumps, json_loads, unquote, get_tank,
  tanks_with_serial, resolve_tank_id, resolve_tank, set_tank_cache, resolve_company_id,
}

unquote-append : (t : Text) → unquote (t ++ b'"' ∷ []) ≡ some t
unfolding unquote
unquote-append [] = refl
unquote-append (c ∷ []) = refl
unquote-append (c ∷ d ∷ t) = rw (unquote-append (d ∷ t)) refl

-- A text comes back from its JSON.
json_loads-json_dumps : (t : Text) → json_loads (json_dumps t) ≡ some t
unfolding json_loads
json_loads-json_dumps t = unquote-append t

-- Keys with different prefixes differ.
serial-ne-gateway : (a b : Text) → serial_cache_key a ≢ gateway_cache_key b
serial-ne-gateway a b e = ground (arith, e)

gateway-ne-neg : (a b : Text) → gateway_cache_key a ≢ neg_cache_key b
gateway-ne-neg a b e = ground (arith, e)

serial-ne-neg : (a b : Text) → serial_cache_key a ≢ neg_cache_key b
serial-ne-neg a b e = ground (arith, e)

abbrev pub frame_names : Text → Text → Names
frame_names mac serial = record {
  gateway_mac = some mac;
  sensor_serial = some serial;
  tank_id = none;
}

module _ (r : Redis Text Text) (laws : RedisLaws r) (tanks : List Tank) (c : Caches r)
    (mac serial : Text) (a : Text) where
  -- The frame of a device that no cache holds is applied to the tank of its serial, which is then
  -- cached under its gateway too.
  first_frame :
      r.get (gateway_cache_key mac) c.store ≡ none
      → r.get (neg_cache_key mac) c.store ≡ none
      → r.get (neg_cache_key serial) c.store ≡ none
      → tanks_with_serial serial tanks ≡ one a
      → resolve_tank r (frame_names mac serial) tanks c
        ≡ (matched a, record c { store = set_tank_cache r a (frame_names mac serial) c.store })
  unfolding resolve_tank resolve_tank_id
  first_frame free known_mac known_serial row =
      rw (known_mac, free, known_serial, known_mac, row) refl

  -- What the gateway's key holds then.
  gateway_cached :
      r.get (neg_cache_key mac) c.store ≡ none
      → let s = set_tank_cache r a (frame_names mac serial) c.store in
        (r.get (neg_cache_key mac) s ≡ none)
        × (r.get (gateway_cache_key mac) s ≡ some (json_dumps a))
  unfolding set_tank_cache
  gateway_cached known_mac =
      let s1 = r.set_ex (gateway_cache_key mac) (json_dumps a) tank_cache_ttl c.store in
      (
        laws.get-set_ex_ne (serial_cache_key serial) (neg_cache_key mac) (json_dumps a)
              tank_cache_ttl s1 (serial-ne-neg serial mac)
            ∙ laws.get-set_ex_ne (gateway_cache_key mac) (neg_cache_key mac) (json_dumps a)
                tank_cache_ttl c.store (gateway-ne-neg mac mac)
            ∙ known_mac,
        laws.get-set_ex_ne (serial_cache_key serial) (gateway_cache_key mac) (json_dumps a)
              tank_cache_ttl s1 (serial-ne-gateway serial mac)
            ∙ laws.get-set_ex_self (gateway_cache_key mac) (json_dumps a) tank_cache_ttl c.store,
      )

  -- What the search relies on in later caches: the entry of the gateway is there as the first frame left
  -- it, the gateway is not marked as unknown, and the batch knows the tank by its own id or not at all.
  abbrev pub Lasts : Caches r → Type 0
  Lasts d =
      (r.get (gateway_cache_key mac) d.store
        ≡ r.get (gateway_cache_key mac) (resolve_tank r (frame_names mac serial) tanks c).1.store)
      × (r.get (neg_cache_key mac) d.store ≡ none)
      × ((lookup a d.tank_cache ≡ none) ⊎ (lookup a d.tank_cache ≡ some a))

  -- The frames of a run, each with the caches that the one before it left.
  unfoldable pub resolve_frames : List Names → Caches r → List Resolution
  resolve_frames [] d = []
  resolve_frames (n ∷ ns) d =
      let (found, d1) = resolve_tank r n tanks d in found ∷ resolve_frames ns d1

  IsHit : Caches r → Type 0
  IsHit d =
      (r.get (neg_cache_key mac) d.store ≡ none)
      × (r.get (gateway_cache_key mac) d.store ≡ some (json_dumps a))
      × ((lookup a d.tank_cache ≡ none) ⊎ (lookup a d.tank_cache ≡ some a))

  -- A hit answers the tank, and the next frame has a hit too.
  IsHit-again :
      (n : Names) (d : Caches r)
      → n.gateway_mac ≡ some mac
      → get_tank a tanks ≡ some a
      → IsHit d
      → ((resolve_tank r n tanks d).0 ≡ matched a) × IsHit (resolve_tank r n tanks d).1
  unfolding IsHit resolve_tank resolve_tank_id
  IsHit-again n d named there (open_, cached, inr known) =
      rw (named, open_, cached, json_loads-json_dumps a, known) (refl, (open_, cached, inr known))
  IsHit-again n d named there (open_, cached, inl new) =
      rw (named, open_, cached, json_loads-json_dumps a, new, there)
        (refl, (open_, cached, inr (lookup-insert_self a a d.tank_cache)))

  resolve_frames-hit :
      (ns : List Names) (d : Caches r)
      → get_tank a tanks ≡ some a
      → All (λ (n : Names). n.gateway_mac ≡ some mac) ns
      → IsHit d
      → All (λ (x : Resolution). x ≡ matched a) (resolve_frames ns d)
  unfolding resolve_frames
  resolve_frames-hit [] d there named hit = tt
  resolve_frames-hit (n ∷ ns) d there named hit =
      let (answer, next) = IsHit-again n d named.0 there hit in
      (answer, resolve_frames-hit ns (resolve_tank r n tanks d).1 there named.1 next)

  -- A reading is taken for the tank that its gateway reported first: once a frame of an unknown gateway
  -- was matched by the serial of its sensor, every frame of a later run that comes from that gateway
  -- goes to the same tank, whatever serial or tank it names, when the cache entry is still there at the
  -- start of the run and the gateway is not marked as unknown.
  pub resolve_tank_mixes :
      (ns : List Names) (d : Caches r)
      → r.get (gateway_cache_key mac) c.store ≡ none
      → r.get (neg_cache_key mac) c.store ≡ none
      → r.get (neg_cache_key serial) c.store ≡ none
      → tanks_with_serial serial tanks ≡ one a
      → get_tank a tanks ≡ some a
      → All (λ (n : Names). n.gateway_mac ≡ some mac) ns
      → Lasts d
      → ((resolve_tank r (frame_names mac serial) tanks c).0 ≡ matched a)
        × All (λ (x : Resolution). x ≡ matched a) (resolve_frames ns d)
  resolve_tank_mixes ns d free known_mac known_serial row there named lasts =
      let first = first_frame free known_mac known_serial row in
      let kept : r.get (gateway_cache_key mac) d.store ≡ some (json_dumps a) =
        lasts.0
        ∙ (ap (λ (x : Resolution × Caches r). r.get (gateway_cache_key mac) x.1.store) first
            ∙ (gateway_cached known_mac).1) in
      (
        ap (λ (x : Resolution × Caches r). x.0) first,
        resolve_frames-hit ns d there named (unfold IsHit in (lasts.1, kept, lasts.2)),
      )

module _ (r : Redis Text Text) (laws : RedisLaws r) (tanks : List Tank) (store : r.Store)
    (a : Text) where
  -- A tank without a company has none when its company is asked for the first time, and the text of
  -- the marker as its company while the cache entry lasts.
  pub resolve_company_id-marker :
      r.get (company_cache_key a) store ≡ none
      → (t : Tank) → keep_if (λ u. text_eq u.id a) tanks ≡ t ∷ []
      → t.company_id ≡ none
      → let (first, s) = resolve_company_id r a tanks store in
        (first ≡ none) × ((resolve_company_id r a tanks s).0 ≡ some null_marker)
  unfolding resolve_company_id
  resolve_company_id-marker free t row nobody =
      rw (free, row, nobody)
        (
          refl,
          rw
              (
                laws.get-set_ex_self (company_cache_key a) (json_dumps null_marker) tank_cache_ttl
                    store,
                json_loads-json_dumps null_marker,
              )
              (unfold text_eq in refl),
        )
