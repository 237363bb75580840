-- ===== src/Relay/Queue.antt =====
-- The two Redis lists of the relay and its loop, one round at a time. A frame is the dictionary that
-- is stored as JSON; the head of a list is where LPUSH puts an item.
use fuel_monitoring.Prelude.{ℕ, zero, suc, ◌+◌, Option, none, some, List, [], ◌∷◌, ◌++◌, Text}

pub record Frame : Type 0 where
  pub command_id : ℕ
  pub gateway_mac : Text
  pub type : Text
  pub payload : Text
  pub issued_at : ℕ
  -- the entry "attempts", which `enqueue_command` does not set
  pub attempts : Option ℕ

pub record Queues : Type 0 where
  pub outbound : List Frame
  pub inflight : List Frame

-- The tail of a list, for RPOP: the other items and the last one.
abbrev pub add_rest : Frame → Option (List Frame × Frame) → List Frame × Frame
add_rest f none = ([], f)
add_rest f (some (rest, l)) = (f ∷ rest, l)

unfoldable pub pop_right : List Frame → Option (List Frame × Frame)
pop_right [] = none
pop_right (f ∷ fs) = some (add_rest f (pop_right fs))

-- `enqueue_command`
unfoldable pub enqueue_command : Frame → Queues → Queues
enqueue_command f q = record q { outbound = f ∷ q.outbound }

abbrev pub drain_last : Option (List Frame × Frame) → Queues → Queues
drain_last none q = q
drain_last (some (rest, f)) q = record { outbound = f ∷ q.outbound; inflight = rest }

-- `drain_inflight`: RPOPLPUSH from inflight to outbound, on fuel; one round for each item is enough.
unfoldable pub drain_inflight : (fuel : ℕ) → Queues → Queues
drain_inflight zero q = q
drain_inflight (suc n) q = drain_inflight n (drain_last (pop_right q.inflight) q)

abbrev pub hand_over : Option (List Frame × Frame) → Queues → Option Frame × Queues
hand_over none q = (none, q)
hand_over (some (rest, f)) q = (some f, record { outbound = rest; inflight = f ∷ q.inflight })

-- `take_command`: BRPOPLPUSH from outbound to inflight
unfoldable pub take_command : Queues → Option Frame × Queues
take_command q = hand_over (pop_right q.outbound) q

-- `release_command`: LPOP of inflight
abbrev pub release_command : Queues → Queues
release_command q = record q { inflight = elim q.inflight [ [] ↦ [] | f ∷ fs ↦ fs ] }

-- What the broker and the database do with a frame: the publish is accepted and the row marked; it
-- is accepted and the marking raises; it is not accepted; or it raises.
pub data Outcome : Type 0 where
  sent mark_raised not_accepted publish_raised : Outcome

-- A publish that was accepted: the id and the attempts of the frame on the wire.
pub record Publish : Type 0 where
  pub command_id : ℕ
  pub attempts : ℕ

-- `int(frame.get("attempts", 0)) + 1`
abbrev pub attempt_number : Option ℕ → ℕ
attempt_number none = 1
attempt_number (some n) = n + 1

abbrev pub on_wire : Frame → Publish
on_wire f = record { command_id = f.command_id; attempts = attempt_number f.attempts }

abbrev push_back : Frame → Queues → Queues
push_back f q = record q { outbound = f ∷ q.outbound }

-- The `try` of the loop, once a frame was taken: the queues and what was published.
unfoldable pub settle_frame : Outcome → Frame → Queues → Queues × List Publish
settle_frame sent f q = (release_command q, on_wire f ∷ [])
settle_frame mark_raised f q = (push_back f (release_command q), on_wire f ∷ [])
settle_frame not_accepted f q = (q, [])
settle_frame publish_raised f q = (push_back f q, [])

abbrev pub relay_taken : Outcome → Option Frame × Queues → Queues × List Publish
relay_taken o (none, q) = (q, [])
relay_taken o (some f, q) = settle_frame o f q

-- One round of `command_relay_loop`.
unfoldable pub relay_round : Outcome → Queues → Queues × List Publish
relay_round o q = relay_taken o (take_command q)

-- The rounds of a run of the loop, one outcome for each.
unfoldable pub relay_rounds : List Outcome → Queues → Queues × List Publish
relay_rounds [] q = (q, [])
relay_rounds (o ∷ os) q =
    let (q1, p) = relay_round o q in let (q2, ps) = relay_rounds os q1 in (q2, p ++ ps)
