-- ===== src/Firmware/Commands/Once.antt =====
-- A command takes effect once, as long as its id is remembered.
use fuel_monitoring.Prelude.{
  ℕ, ◌+◌, ◌≤◌, ◌<◌, ◌≡◌, refl, inl, inr, true, false, Option, none, some, List, [], ◌∷◌, Text,
  text_eq, text_eq_refl, codes, All, arith, Bool-cases, if◌then◌else◌,
}
use fuel_monitoring.Firmware.Commands.{
  Command, CommandRegistry, Seconds, Ack, Effect, Handled, status_probe, reboot, set_interval,
  converted, pos, negsuc, interval_now, ping_ok, probe_requested, rebooting, clamp, dispatch, acked,
  executed, duplicate, ack, cmd_type, is_unsupported, knows, assign, prune, recorded,
  handle_command, handle_entries, handle, dup_ttl,
}

-- The time under which an id is remembered.
unfoldable pub time_of : Text → List (Text × ℕ) → Option ℕ
time_of id [] = none
time_of id ((k, t) ∷ rest) = if text_eq k id then some t else time_of id rest

time_of-knows :
    (id : Text) (l : List (Text × ℕ)) (t : ℕ) → time_of id l ≡ some t → knows id l ≡ true
unfolding time_of knows
time_of-knows id [] t h = absurd (cc)
time_of-knows id ((k, u) ∷ l) t h = ground (arith, time_of-knows id l t)

time_of-prune :
    (id : Text) (now : ℕ) (l : List (Text × ℕ)) (t : ℕ)
    → time_of id l ≡ some t
    → now ≤ t + dup_ttl
    → time_of id (prune now l) ≡ some t
unfolding time_of prune
time_of-prune id now [] t h le = absurd (cc)
time_of-prune id now ((k, u) ∷ l) t h le = ground (arith, time_of-prune id now l t)

time_of-assign_ne :
    (id j : Text) (now : ℕ) (l : List (Text × ℕ)) (t : ℕ)
    → time_of id l ≡ some t
    → knows j l ≡ false
    → time_of id (assign j now l) ≡ some t
unfolding time_of assign knows
time_of-assign_ne id j now [] t h n = absurd (cc)
time_of-assign_ne id j now ((k, u) ∷ l) t h n = ground (arith, time_of-assign_ne id j now l t)

time_of-assign_self :
    (id : Text) (now : ℕ) (l : List (Text × ℕ))
    → knows id l ≡ false
    → time_of id (assign id now l) ≡ some now
unfolding time_of assign knows
time_of-assign_self id now [] n = ground (arith, text_eq_refl id)
time_of-assign_self id now ((k, u) ∷ l) n = ground (arith, time_of-assign_self id now l)

-- A call of `handle` with its time.
pub record Call : Type 0 where
  pub now : ℕ
  pub command : Command

-- The registry after a run of calls.
unfoldable pub run : List Call → CommandRegistry → CommandRegistry
run [] r = r
run (c ∷ calls) r = run calls (handle c.now c.command r).1

-- A call that is not acknowledged, or that names a command type of the gateway.
abbrev pub IsSupported : Option Text → Type 0
IsSupported none = Unit
IsSupported (some t) = is_unsupported (cmd_type t) ≡ false

handle_command-time_of :
    (id : Text) (since now : ℕ) (j t : Text) (s : Seconds) (r : CommandRegistry)
    → time_of id r.recent ≡ some since
    → now ≤ since + dup_ttl
    → is_unsupported (cmd_type t) ≡ false
    → time_of id (handle_command now j t s r).1.recent ≡ some since
unfolding handle_command recorded
handle_command-time_of id since now j t s r h soon known =
    let kept = time_of-prune id now r.recent since h soon in
    elim (Bool-cases (knows j (prune now r.recent))) [
      | inl y ↦ rw (known, y) kept
      | inr n ↦ rw (known, n) (time_of-assign_ne id j now (prune now r.recent) since kept n)
    ]

handle_entries-time_of :
    (id : Text) (since now : ℕ) (cid type : Option Text) (s : Seconds) (r : CommandRegistry)
    → time_of id r.recent ≡ some since
    → now ≤ since + dup_ttl
    → IsSupported type
    → time_of id (handle_entries now cid type s r).1.recent ≡ some since
handle_entries-time_of id since now none type s r h soon known = h
handle_entries-time_of id since now (some []) type s r h soon known = h
handle_entries-time_of id since now (some (i ∷ j)) none s r h soon known = h
handle_entries-time_of id since now (some (i ∷ j)) (some []) s r h soon known = h
handle_entries-time_of id since now (some (i ∷ j)) (some (x ∷ t)) s r h soon known =
    handle_command-time_of id since now (i ∷ j) (x ∷ t) s r h soon known

-- The calls of a run come in time and name supported types.
abbrev AreInTime : ℕ → List Call → Type 0
AreInTime since calls =
    All (λ (c : Call). (c.now ≤ since + dup_ttl) × IsSupported c.command.type) calls

run-time_of :
    (id : Text) (since : ℕ) (calls : List Call) (r : CommandRegistry)
    → time_of id r.recent ≡ some since
    → AreInTime since calls
    → time_of id (run calls r).recent ≡ some since
unfolding run
run-time_of id since [] r h ok_ = h
run-time_of id since (c ∷ calls) r h ok_ =
    run-time_of id since calls (handle c.now c.command r).1
      (unfold handle in
        handle_entries-time_of id since c.now c.command.command_id c.command.type c.command.seconds
          r h ok_.0.0 ok_.0.1)
      ok_.1

-- The call of an id that is not remembered stores it under its time.
handle_command-remembers :
    (now : ℕ) (id t : Text) (s : Seconds) (r : CommandRegistry)
    → knows id (prune now r.recent) ≡ false
    → is_unsupported (cmd_type t) ≡ false
    → time_of id (handle_command now id t s r).1.recent ≡ some now
unfolding handle_command recorded
handle_command-remembers now id t s r new known =
    rw (known, new) (time_of-assign_self id now (prune now r.recent) new)

-- The call of an id that is remembered and not outdated has no effect.
handle_command-duplicate :
    (since now : ℕ) (id t : Text) (s : Seconds) (r : CommandRegistry)
    → time_of id r.recent ≡ some since
    → now ≤ since + dup_ttl
    → is_unsupported (cmd_type t) ≡ false
    → (handle_command now id t s r).0 ≡ acked (ack id executed duplicate) none
unfolding handle_command recorded
handle_command-duplicate since now id t s r h soon known =
    let kept = time_of-prune id now r.recent since h soon in
    rw (known, time_of-knows id (prune now r.recent) since kept) refl

abbrev pub command : Text → Text → Seconds → Command
command id t s = record { command_id = some id; type = some t; seconds = s }

-- After a call of a new id, and after any calls of supported types within a day, the same id is
-- acknowledged as a duplicate and has no effect.
pub handle_duplicate :
    (now later i x y : ℕ) (id t u : Text) (s s' : Seconds) (calls : List Call) (r : CommandRegistry)
    → knows (i ∷ id) (prune now r.recent) ≡ false
    → is_unsupported (cmd_type (x ∷ t)) ≡ false
    → is_unsupported (cmd_type (y ∷ u)) ≡ false
    → AreInTime now calls
    → later ≤ now + dup_ttl
    → let after = run calls (handle now (command (i ∷ id) (x ∷ t) s) r).1 in
      (handle later (command (i ∷ id) (y ∷ u) s') after).0
      ≡ acked (ack (i ∷ id) executed duplicate) none
unfolding handle
handle_duplicate now later i x y id t u s s' calls r new known known' in_time soon =
    handle_command-duplicate now later (i ∷ id) (y ∷ u) s'
      (run calls (handle_command now (i ∷ id) (x ∷ t) s r).1)
      (run-time_of (i ∷ id) now calls (handle_command now (i ∷ id) (x ∷ t) s r).1
        (handle_command-remembers now (i ∷ id) (x ∷ t) s r new known) in_time)
      soon known'

-- What a command asks for: nothing but an answer, a status, a restart, or a sampling interval, which
-- is held between five seconds and an hour.
pub data Asks : Text → Seconds → Option Effect → Type 0 where
  asks_answer : (s : Seconds) → Asks (codes "ping") s none
  asks_status : (s : Seconds) → Asks (codes "status_probe") s (some status_probe)
  asks_restart : (s : Seconds) → Asks (codes "reboot") s (some reboot)
  asks_low :
      (n : ℕ) → n < 5 → Asks (codes "set_interval") (converted (pos n)) (some (set_interval 5))
  asks_negative :
      (n : ℕ) → Asks (codes "set_interval") (converted (negsuc n)) (some (set_interval 5))
  asks_within :
      (n : ℕ)
      → 5 ≤ n
      → n ≤ 3600
      → Asks (codes "set_interval") (converted (pos n)) (some (set_interval n))
  asks_high :
      (n : ℕ)
      → 3600 < n
      → Asks (codes "set_interval") (converted (pos n)) (some (set_interval 3600))

-- The answer of a command that was applied.
abbrev pub IsApplied : Text → Option Effect → Handled → Type 0
IsApplied id e out = (a : Ack) × (out ≡ acked a e) × (a.command_id ≡ id) × (a.status ≡ executed)

clamp-low : (n : ℕ) → n < 5 → clamp (pos n) ≡ 5
unfolding clamp
clamp-low n h = omega arith

clamp-within : (n : ℕ) → 5 ≤ n → n ≤ 3600 → clamp (pos n) ≡ n
unfolding clamp
clamp-within n h k = omega arith

clamp-high : (n : ℕ) → 3600 < n → clamp (pos n) ≡ 3600
unfolding clamp
clamp-high n h = omega arith

dispatch-IsApplied :
    (id t : Text) (s : Seconds) (e : Option Effect)
    → Asks t s e
    → (is_unsupported (cmd_type t) ≡ false) × IsApplied id e (dispatch id (cmd_type t) t s)
unfolding cmd_type text_eq dispatch
dispatch-IsApplied id t s e (asks_answer _) = (refl, (ack id executed ping_ok, refl, refl, refl))
dispatch-IsApplied id t s e (asks_status _) =
    (refl, (ack id executed probe_requested, refl, refl, refl))
dispatch-IsApplied id t s e (asks_restart _) = (refl, (ack id executed rebooting, refl, refl, refl))
dispatch-IsApplied id t s e (asks_low n h) =
    (refl, rw (clamp-low n h) (ack id executed (interval_now 5), refl, refl, refl))
dispatch-IsApplied id t s e (asks_negative n) =
    (refl, (ack id executed (interval_now 5), unfold clamp in refl, refl, refl))
dispatch-IsApplied id t s e (asks_within n h k) =
    (refl, rw (clamp-within n h k) (ack id executed (interval_now n), refl, refl, refl))
dispatch-IsApplied id t s e (asks_high n h) =
    (refl, rw (clamp-high n h) (ack id executed (interval_now 3600), refl, refl, refl))

-- A command with a new id that asks for an effect is applied once: it is acknowledged as executed with
-- that effect. After it, and after any calls of supported types within a day, the same id is
-- acknowledged as a duplicate and has no effect.
pub handle_once :
    (now later i x y : ℕ) (id t u : Text) (s s' : Seconds) (e : Option Effect) (calls : List Call)
    (r : CommandRegistry)
    → knows (i ∷ id) (prune now r.recent) ≡ false
    → Asks (x ∷ t) s e
    → is_unsupported (cmd_type (y ∷ u)) ≡ false
    → AreInTime now calls
    → later ≤ now + dup_ttl
    → let (first, r1) = handle now (command (i ∷ id) (x ∷ t) s) r in
      let after = run calls r1 in
      IsApplied (i ∷ id) e first
      × ((handle later (command (i ∷ id) (y ∷ u) s') after).0
          ≡ acked (ack (i ∷ id) executed duplicate) none)
handle_once now later i x y id t u s s' e calls r new asks known' in_time soon =
    let (known, applied) = dispatch-IsApplied (i ∷ id) (x ∷ t) s e asks in
    (
      unfold handle handle_command recorded in rw (known, new) applied,
      handle_duplicate now later i x y id t u s s' calls r new known known' in_time soon,
    )
