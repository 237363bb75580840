-- ===== src/Ingestion/Resolve.antt =====
-- Which tank a reading belongs to: platform/fmp/ingestion/cache.py and the first part of
-- `_process_reading` of platform/fmp/ingestion/main.py, as the flusher calls it. Ids are the texts of
-- UUIDs. A value of the cache is the JSON of a text that has nothing to escape.
pub mod Mixing
use fuel_monitoring.Prelude.{
  ap, ℕ, ◌≡◌, refl, Bool, true, false, not, ◌&&◌, ◌||◌, Option, none, some, List, [], ◌∷◌, ◌++◌,
  Text, codes, text_eq, keep_if, ◌==◌, if◌then◌else◌,
}
use fuel_monitoring.Prelude.Dict.{lookup, insert}
use fuel_monitoring.Redis.{Redis}

abbrev pub tank_cache_ttl : ℕ
tank_cache_ttl = 300

abbrev pub tank_neg_ttl : ℕ
tank_neg_ttl = 60

-- `_NULL`
abbrev pub null_marker : Text
null_marker = codes "__NULL__"

abbrev pub serial_cache_key : Text → Text
serial_cache_key serial = codes "tank:by:serial:" ++ serial

abbrev pub gateway_cache_key : Text → Text
gateway_cache_key mac = codes "tank:by:gateway:" ++ mac

abbrev pub neg_cache_key : Text → Text
neg_cache_key name = codes "tank:neg:" ++ name

abbrev pub company_cache_key : Text → Text
company_cache_key tank_id = codes "tank:company:" ++ tank_id

-- `json.dumps` of a text
abbrev pub json_dumps : Text → Text
json_dumps t = b'"' ∷ (t ++ b'"' ∷ [])

abbrev cons_in : ℕ → Option Text → Option Text
cons_in c none = none
cons_in c (some t) = some (c ∷ t)

unfoldable pub unquote : Text → Option Text
unquote [] = none
unquote (c ∷ []) = if c == b'"' then some [] else none
unquote (c ∷ d ∷ s) = cons_in c (unquote (d ∷ s))

-- `json.loads`, none for a `JSONDecodeError`
unfoldable pub json_loads : Text → Option Text
json_loads [] = none
json_loads (c ∷ s) = if c == b'"' then unquote s else none

pub record Tank : Type 0 where
  pub id : Text
  pub sensor_serial_number : Text
  pub gateway_mac : Option Text
  -- the company of its site, through a join; none for no site or a site without one
  pub company_id : Option Text

abbrev has_mac : Text → Option Text → Bool
has_mac mac none = false
has_mac mac (some m) = text_eq m mac

abbrev first_id : List Tank → Option Text
first_id [] = none
first_id (t ∷ ts) = some t.id

-- `session.get(Tank, id)`, by its primary key
unfoldable pub get_tank : Text → List Tank → Option Text
get_tank id tanks = first_id (keep_if (λ t. text_eq t.id id) tanks)

-- A tank, or none; or more than one row for `scalar_one_or_none`.
pub data Found : Type 0 where
  nothing : Found
  one : Text → Found
  too_many : Found

abbrev scalar : List Tank → Found
scalar [] = nothing
scalar (t ∷ []) = one t.id
scalar (t ∷ u ∷ ts) = too_many

unfoldable pub tanks_with_serial : Text → List Tank → Found
tanks_with_serial serial tanks = scalar (keep_if (λ t. text_eq t.sensor_serial_number serial) tanks)

unfoldable pub tanks_with_mac : Text → List Tank → Found
tanks_with_mac mac tanks = scalar (keep_if (λ t. has_mac mac t.gateway_mac) tanks)

-- What a frame names: the gateway of its topic, and entries of its payload; an empty text counts as
-- missing.
pub record Names : Type 0 where
  pub gateway_mac : Option Text
  pub sensor_serial : Option Text
  pub tank_id : Option Text

-- How the search ends: a device that is known to be unknown, no tank, a tank, an exception.
pub data Resolution : Type 0 where
  skipped unmatched : Resolution
  matched : Text → Resolution
  multiple_results : Resolution

abbrev pub is_set : Option Text → Bool
is_set none = false
is_set (some v) = true

-- The server, and `tank_cache` of the batch: keys to ids of tanks that were loaded.
pub record Caches (r : Redis Text Text) : Type 0 where
  pub store : r.Store
  pub tank_cache : List (Text × Text)

module _ (r : Redis Text Text) where
  abbrev loaded : Option Text → Option Text
  loaded none = none
  loaded (some raw) = json_loads raw

  abbrev cached_id : (key name : Text) → r.Store → Option Text
  cached_id key name s =
      if is_set (r.get (neg_cache_key name) s) then none else loaded (r.get key s)

  abbrev cached_by : Option Text → Option Text → r.Store → Option Text
  cached_by (some mac) serial s = cached_id (gateway_cache_key mac) mac s
  cached_by none (some serial) s = cached_id (serial_cache_key serial) serial s
  cached_by none none s = none

  -- `resolve_tank_id`
  unfoldable pub resolve_tank_id : Names → r.Store → Option Text
  resolve_tank_id n s = cached_by n.gateway_mac n.sensor_serial s

  -- `set_tank_cache` and `set_negative_cache`
  abbrev set_if : (Text → Text) → Option Text → Text → ℕ → r.Store → r.Store
  set_if key none value ttl s = s
  set_if key (some name) value ttl s = r.set_ex (key name) value ttl s

  unfoldable pub set_tank_cache : Text → Names → r.Store → r.Store
  set_tank_cache id n s =
      set_if serial_cache_key n.sensor_serial (json_dumps id) tank_cache_ttl
        (set_if gateway_cache_key n.gateway_mac (json_dumps id) tank_cache_ttl s)

  unfoldable pub set_negative_cache : Names → r.Store → r.Store
  set_negative_cache n s =
      set_if neg_cache_key n.gateway_mac (json_dumps null_marker) tank_neg_ttl
        (set_if neg_cache_key n.sensor_serial (json_dumps null_marker) tank_neg_ttl s)

  abbrev has_negative : Option Text → r.Store → Bool
  has_negative none s = false
  has_negative (some name) s = is_set (r.get (neg_cache_key name) s)

  abbrev remember : Text → Option Text → Caches r → Caches r
  remember key none c = c
  remember key (some id) c = record c { tank_cache = insert key id c.tank_cache }

  -- A tank by its id, from the batch or from the table.
  abbrev load_known : Text → Option Text → List Tank → Caches r → Option Text × Caches r
  load_known id (some t) tanks c = (some t, c)
  load_known id none tanks c = (get_tank id tanks, remember id (get_tank id tanks) c)

  -- The last steps: no tank leaves negative entries, a tank that was found without an id is cached.
  abbrev no_match : Names → Caches r → Resolution × Caches r
  no_match n c = (unmatched, record c { store = set_negative_cache n c.store })

  abbrev found : (had_id : Bool) → Names → Text → Caches r → Resolution × Caches r
  found had_id n t c =
      (matched t, if had_id then c else record c { store = set_tank_cache t n c.store })

  abbrev found_by_mac : (had_id : Bool) → Names → Text → Found → Caches r → Resolution × Caches r
  found_by_mac had_id n mac nothing c = no_match n c
  found_by_mac had_id n mac (one t) c = found had_id n t (remember mac (some t) c)
  found_by_mac had_id n mac too_many c = (multiple_results, c)

  abbrev by_cached_mac :
      (had_id : Bool) → Names → Text → Option Text → List Tank → Caches r → Resolution × Caches r
  by_cached_mac had_id n mac (some t) tanks c = found had_id n t c
  by_cached_mac had_id n mac none tanks c = found_by_mac had_id n mac (tanks_with_mac mac tanks) c

  abbrev by_gateway :
      (had_id : Bool) → Names → Option Text → List Tank → Caches r → Resolution × Caches r
  by_gateway had_id n none tanks c = no_match n c
  by_gateway had_id n (some mac) tanks c =
      by_cached_mac had_id n mac (lookup mac c.tank_cache) tanks c

  abbrev found_by_serial : Names → Found → List Tank → Caches r → Resolution × Caches r
  found_by_serial n nothing tanks c = by_gateway false n n.gateway_mac tanks c
  found_by_serial n (one t) tanks c = found false n t c
  found_by_serial n too_many tanks c = (multiple_results, c)

  abbrev by_serial : Names → Option Text → List Tank → Caches r → Resolution × Caches r
  by_serial n none tanks c = by_gateway false n n.gateway_mac tanks c
  by_serial n (some serial) tanks c = found_by_serial n (tanks_with_serial serial tanks) tanks c

  abbrev or_gateway : Names → Option Text → List Tank → Caches r → Resolution × Caches r
  or_gateway n none tanks c = by_gateway true n n.gateway_mac tanks c
  or_gateway n (some t) tanks c = found true n t c

  -- Nothing cached: the id of the payload, then the serial, then the gateway.
  abbrev by_payload : Names → Option Text → List Tank → Caches r → Resolution × Caches r
  by_payload n none tanks c = by_serial n n.sensor_serial tanks c
  by_payload n (some key) tanks c = or_gateway n (get_tank key tanks) tanks c

  abbrev by_cached_id : Names → Option Text → List Tank → Caches r → Resolution × Caches r
  by_cached_id n none tanks c =
      if has_negative n.sensor_serial c.store || has_negative n.gateway_mac c.store
      then (skipped, c)
      else by_payload n n.tank_id tanks c
  by_cached_id n (some id) tanks c =
      let known = load_known id (lookup id c.tank_cache) tanks c in
      or_gateway n known.0 tanks known.1

  -- The search of `_process_reading`
  unfoldable pub resolve_tank : Names → List Tank → Caches r → Resolution × Caches r
  resolve_tank n tanks c = by_cached_id n (resolve_tank_id n c.store) tanks c

  abbrev company_of : List Tank → Option Text
  company_of [] = none
  company_of (t ∷ ts) = t.company_id

  abbrev or_null : Option Text → Text
  or_null none = null_marker
  or_null (some c) = c

  abbrev query_company : Text → List Tank → r.Store → Option Text × r.Store
  query_company id tanks s =
      let company = company_of (keep_if (λ t. text_eq t.id id) tanks) in
      (company, r.set_ex (company_cache_key id) (json_dumps (or_null company)) tank_cache_ttl s)

  abbrev or_query : Option Text → Text → List Tank → r.Store → Option Text × r.Store
  or_query none id tanks s = query_company id tanks s
  or_query (some c) id tanks s = (some c, s)

  abbrev cached_company : Option Text → Text → List Tank → r.Store → Option Text × r.Store
  cached_company none id tanks s = query_company id tanks s
  cached_company (some raw) id tanks s =
      if text_eq raw null_marker then (none, s) else or_query (json_loads raw) id tanks s

  -- `resolve_company_id`
  unfoldable pub resolve_company_id : Text → List Tank → r.Store → Option Text × r.Store
  resolve_company_id id tanks s = cached_company (r.get (company_cache_key id) s) id tanks s
