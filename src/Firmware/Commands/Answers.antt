-- ===== src/Firmware/Commands/Answers.antt =====
-- What the registry answers: bounds of an interval, growth, and the retry of a refused command.
use fuel_monitoring.Prelude.{
  ℕ, ◌+◌, ◌≤◌, ◌≡◌, refl, inl, inr, false, Option, none, some, List, [], ◌∷◌, Text, codes, text_eq,
  length, arith, Bool-cases,
}
use fuel_monitoring.Firmware.Commands.{
  Command, CommandRegistry, Seconds, acked, Ack, executed, rejected, duplicate, invalid_interval,
  set_interval, ack, cmd_type, CmdType, is_unsupported, dispatch, knows, assign, prune, recorded,
  handle_command, handle_entries, ℤ, ping, probe, restart, unsupported, overflow, handle, dup_ttl,
  clamp, min_interval, max_interval, interval, refused, converted, pos, negsuc,
}
use fuel_monitoring.Firmware.Commands.Once.{command, handle_duplicate, run}

length-assign :
    (id : Text) (now : ℕ) (l : List (Text × ℕ))
    → knows id l ≡ false
    → length (assign id now l) ≡ length l + 1
unfolding assign knows
length-assign id now [] n = omega arith
length-assign id now ((k, u) ∷ l) n = ground (arith, length-assign id now l)

clamp_bounds : (z : ℤ) → (min_interval ≤ clamp z) × (clamp z ≤ max_interval)
unfolding clamp
clamp_bounds (pos n) = (omega arith, omega arith)
clamp_bounds (negsuc n) = (omega arith, omega arith)

dispatch_bounds :
    (id t : Text) (k : CmdType) (s : Seconds) (a : Ack) (n : ℕ)
    → dispatch id k t s ≡ acked a (some (set_interval n))
    → (min_interval ≤ n) × (n ≤ max_interval)
unfolding dispatch
dispatch_bounds id t ping s a n h = cc
dispatch_bounds id t probe s a n h = cc
dispatch_bounds id t interval (converted z) a n h = ground (arith, clamp_bounds z)
dispatch_bounds id t interval refused a n h = cc
dispatch_bounds id t interval overflow a n h = cc
dispatch_bounds id t restart s a n h = cc
dispatch_bounds id t unsupported s a n h = cc

command_bounds :
    (now : ℕ) (id t : Text) (s : Seconds) (r : CommandRegistry) (a : Ack) (n : ℕ)
    → (handle_command now id t s r).0 ≡ acked a (some (set_interval n))
    → (min_interval ≤ n) × (n ≤ max_interval)
unfolding handle_command recorded
command_bounds now id t s r a n h = elim (Bool-cases (is_unsupported (cmd_type t))) [
  | inl y ↦ absurd (ground arith)
  | inr k ↦ elim (Bool-cases (knows id (prune now r.recent))) [
    | inl y ↦ absurd (ground arith)
    | inr m ↦ dispatch_bounds id t (cmd_type t) s a n (rw (k, m) at h)
  ]
]

entries_bounds :
    (now : ℕ) (cid type : Option Text) (s : Seconds) (r : CommandRegistry) (a : Ack) (n : ℕ)
    → (handle_entries now cid type s r).0 ≡ acked a (some (set_interval n))
    → (min_interval ≤ n) × (n ≤ max_interval)
entries_bounds now none type s r a n h = cc
entries_bounds now (some []) type s r a n h = cc
entries_bounds now (some (i ∷ j)) none s r a n h = cc
entries_bounds now (some (i ∷ j)) (some []) s r a n h = cc
entries_bounds now (some (i ∷ j)) (some (x ∷ t)) s r a n h =
    command_bounds now (i ∷ j) (x ∷ t) s r a n h

-- An interval that takes effect lies between 5 seconds and an hour.
pub handle-interval_bounds :
    (now : ℕ) (c : Command) (r : CommandRegistry) (a : Ack) (n : ℕ)
    → (handle now c r).0 ≡ acked a (some (set_interval n))
    → (min_interval ≤ n) × (n ≤ max_interval)
unfolding handle
handle-interval_bounds now c r a n h = entries_bounds now c.command_id c.type c.seconds r a n h

-- A supported command with a new id adds an entry to the registry, whatever its bound is.
pub handle_grows :
    (now i x : ℕ) (id t : Text) (s : Seconds) (r : CommandRegistry)
    → knows (i ∷ id) (prune now r.recent) ≡ false
    → is_unsupported (cmd_type (x ∷ t)) ≡ false
    → length (handle now (command (i ∷ id) (x ∷ t) s) r).1.recent ≡ length (prune now r.recent) + 1
unfolding handle handle_command recorded
handle_grows now i x id t s r new known =
    rw (known, new) (length-assign (i ∷ id) now (prune now r.recent) new)

-- A refused interval with a new id is rejected, and its retry within a day is acknowledged as executed.
pub handle_rejected_retry :
    (now later i : ℕ) (id : Text) (r : CommandRegistry)
    → knows (i ∷ id) (prune now r.recent) ≡ false
    → later ≤ now + dup_ttl
    → let request = command (i ∷ id) (codes "set_interval") refused in
      let first = handle now request r in
      (first.0 ≡ acked (ack (i ∷ id) rejected invalid_interval) none)
      × ((handle later request first.1).0 ≡ acked (ack (i ∷ id) executed duplicate) none)
unfolding handle run handle_command recorded cmd_type text_eq dispatch
handle_rejected_retry now later i id r new soon = (
  rw new refl,
  handle_duplicate now later i b's' b's' id (codes "et_interval") (codes "et_interval") refused
      refused [] r new refl refl tt soon,
)
