-- ===== src/Firmware/Loop/Lost.antt =====
-- A command whose acknowledgement does not go out.
use fuel_monitoring.Prelude.{
  ℕ, ◌+◌, ◌≤◌, ◌≡◌, refl, Bool, true, false, none, some, [], ◌∷◌, ◌++◌, Text,
}
use fuel_monitoring.Firmware.Commands.{
  Command, CommandRegistry, Seconds, Ack, Handled, ignored, overflow_error, acked, executed,
  duplicate, ack, cmd_type, is_unsupported, knows, prune, handle, dup_ttl,
}
use fuel_monitoring.Firmware.Commands.Once.{command, handle_duplicate, run}
use fuel_monitoring.Firmware.Loop.{FrameStore, Inbound, Node, on_command, answered}

module _ {F : Type 0} (b : FrameStore F) where
  abbrev pub inbound_of : ℕ → Command → (ack_sent : Bool) → Inbound
  inbound_of now c sent = record { now = now; command = some c; ack_sent = sent }

  -- Without its acknowledgement an answer of the registry changes the registry only.
  answered_unsent :
      (now : ℕ) (c : Command) (x : Handled × CommandRegistry) (n : Node b)
      → (answered b (inbound_of now c false) x n).1 ≡ record n { registry = x.1 }
  answered_unsent now c (ignored, r) n = refl
  answered_unsent now c (overflow_error, r) n = refl
  answered_unsent now c (acked a none, r) n = refl
  answered_unsent now c (acked a (some e), r) n = refl

  -- An acknowledgement without effect that goes out.
  answered_sent :
      (now : ℕ) (c : Command) (a : Ack) (x : Handled × CommandRegistry) (n : Node b)
      → x.0 ≡ acked a none
      → ((answered b (inbound_of now c true) x n).1.pending ≡ n.pending)
        × ((answered b (inbound_of now c true) x n).1.acks ≡ n.acks ++ a ∷ [])
  answered_sent now c a (h, r) n e = rw e (refl, refl)

  -- A supported command with a new id whose acknowledgement cannot be published has no effect, now or
  -- when it is sent again within a day: the retry is acknowledged as executed and leaves what is
  -- pending as it is.
  pub on_command_lost :
      (now later i x : ℕ) (id t : Text) (s : Seconds) (n : Node b)
      → knows (i ∷ id) (prune now n.registry.recent) ≡ false
      → is_unsupported (cmd_type (x ∷ t)) ≡ false
      → later ≤ now + dup_ttl
      → let c = command (i ∷ id) (x ∷ t) s in
        let n1 = (on_command b (inbound_of now c false) n).1 in
        let n2 = (on_command b (inbound_of later c true) n1).1 in
        (n1.pending ≡ n.pending)
        × (n1.acks ≡ n.acks)
        × (n2.pending ≡ n.pending)
        × (n2.acks ≡ n.acks ++ ack (i ∷ id) executed duplicate ∷ [])
  unfolding on_command
  on_command_lost now later i x id t s n new known soon =
      let c = command (i ∷ id) (x ∷ t) s in
      let first = answered_unsent now c (handle now c n.registry) n in
      let again : (handle later c (handle now c n.registry).1).0
          ≡ acked (ack (i ∷ id) executed duplicate) none =
        unfold run in
        handle_duplicate now later i x x id t t s s [] n.registry new known known tt soon in
      let (pending, acks) =
        answered_sent later c (ack (i ∷ id) executed duplicate)
          (handle later c (handle now c n.registry).1)
          (record n { registry = (handle now c n.registry).1 }) again in
      rw first (refl, refl, pending, acks)
