-- ===== src/Firmware/Commands.antt =====
-- firmware/commands.py: the command registry, which acknowledges a command and applies it once.
pub mod Once
pub mod Answers
use fuel_monitoring.Prelude.{
  ℕ, ◌+◌, ◌<◌, Bool, true, false, not, ◌||◌, Option, none, some, List, [], ◌∷◌, Text, codes,
  text_eq, length, any, keep_if, find, ltb, leb, min, max, if◌then◌else◌,
}

-- What Python's `int` makes of a number: `negsuc n` is `-(n + 1)`.
pub data ℤ : Type 0 where
  pos negsuc : ℕ → ℤ

-- The outcome of `int(payload.get("seconds"))`: a value, a `TypeError` or `ValueError`, and the
-- `OverflowError` of an infinite float.
pub data Seconds : Type 0 where
  converted : ℤ → Seconds
  refused overflow : Seconds

-- A command after `json.loads`: the entries that are read.
pub record Command : Type 0 where
  pub command_id : Option Text
  pub type : Option Text
  pub seconds : Seconds

-- `_recent`, in the order of insertion, with its bound.
pub record CommandRegistry : Type 0 where
  pub max_recent : ℕ
  pub recent : List (Text × ℕ)

pub data AckStatus : Type 0 where
  executed rejected : AckStatus

pub data Detail : Type 0 where
  unsupported_command : Text → Detail
  duplicate ping_ok probe_requested rebooting invalid_interval : Detail
  interval_now : ℕ → Detail

pub record Ack : Type 0 where
  pub command_id : Text
  pub status : AckStatus
  pub detail : Detail

pub data Effect : Type 0 where
  status_probe reboot : Effect
  set_interval : ℕ → Effect

-- `(ack, effect)`, `(None, None)`, or an exception that leaves `handle`.
pub data Handled : Type 0 where
  acked : Ack → Option Effect → Handled
  ignored overflow_error : Handled

-- `_MIN_INTERVAL_S`, `_MAX_INTERVAL_S`, `_DUP_TTL_S`
abbrev pub min_interval : ℕ
min_interval = 5

abbrev pub max_interval : ℕ
max_interval = 3600

abbrev pub dup_ttl : ℕ
dup_ttl = 86400

pub data CmdType : Type 0 where
  ping probe interval restart unsupported : CmdType

-- `cmd_type in _CMD_TYPES`, and which one
unfoldable pub cmd_type : Text → CmdType
cmd_type t =
    if text_eq t (codes "ping")
    then ping
    else if text_eq t (codes "status_probe")
    then probe
    else if text_eq t (codes "set_interval")
    then interval
    else if text_eq t (codes "reboot")
    then restart
    else unsupported

-- `max(_MIN_INTERVAL_S, min(seconds, _MAX_INTERVAL_S))`
unfoldable pub clamp : ℤ → ℕ
clamp (pos n) = max min_interval (min n max_interval)
clamp (negsuc n) = min_interval

abbrev pub ack : Text → AckStatus → Detail → Ack
ack id status detail = record { command_id = id; status = status; detail = detail }

-- `_dispatch` and the acknowledgement of what it returns or raises
unfoldable pub dispatch : Text → CmdType → Text → Seconds → Handled
dispatch id ping t s = acked (ack id executed ping_ok) none
dispatch id probe t s = acked (ack id executed probe_requested) (some status_probe)
dispatch id interval t (converted z) =
    acked (ack id executed (interval_now (clamp z))) (some (set_interval (clamp z)))
dispatch id interval t refused = acked (ack id rejected invalid_interval) none
dispatch id interval t overflow = overflow_error
dispatch id restart t s = acked (ack id executed rebooting) (some reboot)
dispatch id unsupported t s = acked (ack id rejected (unsupported_command t)) none

-- `command_id in self._recent`
unfoldable pub knows : Text → List (Text × ℕ) → Bool
knows id [] = false
knows id ((k, t) ∷ rest) = text_eq k id || knows id rest

-- `self._recent[command_id] = now`: an entry keeps its place
unfoldable pub assign : Text → ℕ → List (Text × ℕ) → List (Text × ℕ)
assign id now [] = (id, now) ∷ []
assign id now ((k, t) ∷ rest) =
    let more = assign id now rest in if text_eq k id then (k, now) ∷ rest else (k, t) ∷ more

-- `min(self._recent, key=self._recent.get)`: the first of the smallest times
abbrev earlier : Text × ℕ → Option (Text × ℕ) → Text × ℕ
earlier e none = e
earlier (k, t) (some (j, u)) = if ltb u t then (j, u) else (k, t)

unfoldable pub oldest : List (Text × ℕ) → Option (Text × ℕ)
oldest [] = none
oldest (e ∷ rest) = some (earlier e (oldest rest))

-- `del self._recent[...]`
unfoldable pub remove : Text → List (Text × ℕ) → List (Text × ℕ)
remove id [] = []
remove id ((k, t) ∷ rest) =
    let more = remove id rest in if text_eq k id then rest else (k, t) ∷ more

abbrev evict : Option (Text × ℕ) → List (Text × ℕ) → List (Text × ℕ)
evict none recent = recent
evict (some (k, t)) recent = remove k recent

-- `_remember`
unfoldable pub remember : Text → ℕ → CommandRegistry → CommandRegistry
remember id now r =
    let kept =
      if leb r.max_recent (length r.recent) then evict (oldest r.recent) r.recent else r.recent in
    record r { recent = assign id now kept }

-- `_prune`: entries with `ts < now - ttl` go
unfoldable pub prune : ℕ → List (Text × ℕ) → List (Text × ℕ)
prune now [] = []
prune now ((k, t) ∷ rest) =
    if ltb (t + dup_ttl) now then prune now rest else (k, t) ∷ prune now rest

-- `if fresh: self._recent[command_id] = now`, after the pruning
unfoldable pub recorded : ℕ → Text → CommandRegistry → Bool × CommandRegistry
recorded now id r =
    let kept = prune now r.recent in
    let fresh = not (knows id kept) in
    (fresh, record r { recent = if fresh then assign id now kept else kept })

abbrev pub answer_known : Text → Bool → CmdType → Text → Seconds → Handled
answer_known id true c t s = dispatch id c t s
answer_known id false c t s = acked (ack id executed duplicate) none

abbrev pub is_unsupported : CmdType → Bool
is_unsupported unsupported = true
is_unsupported _ = false

-- `handle` once both entries are there
unfoldable pub handle_command :
    ℕ → Text → Text → Seconds → CommandRegistry → Handled × CommandRegistry
handle_command now id t s r =
    let (fresh, r1) = recorded now id r in
    if is_unsupported (cmd_type t)
    then (acked (ack id rejected (unsupported_command t)) none, remember id now r1)
    else (answer_known id fresh (cmd_type t) t s, r1)

abbrev pub handle_entries :
    ℕ → Option Text → Option Text → Seconds → CommandRegistry → Handled × CommandRegistry
handle_entries now (some (i ∷ id)) (some (c ∷ t)) s r = handle_command now (i ∷ id) (c ∷ t) s r
handle_entries now _ _ s r = (ignored, r)

-- `handle`, at time `now`: an absent or empty entry is not acknowledged.
unfoldable pub handle : ℕ → Command → CommandRegistry → Handled × CommandRegistry
handle now c r = handle_entries now c.command_id c.type c.seconds r
