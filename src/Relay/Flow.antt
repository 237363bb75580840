-- ===== src/Relay/Flow.antt =====
-- What happens to the frames in the relay: none is lost, in order, and which outcome copies one.
use mathlib.Core.List.{reverse-cons, append_assoc}
use fuel_monitoring.Prelude.{
  ap, sym, ◌∙◌, ℕ, suc, ◌+◌, ◌≡◌, refl, Option, none, some, List, [], ◌∷◌, ◌++◌, map, reverse,
  length, All, arith, ◌==◌, if◌then◌else◌,
}
use fuel_monitoring.Relay.Queue.{
  Frame, Queues, Outcome, sent, not_accepted, mark_raised, publish_raised, Publish, on_wire,
  pop_right, drain_inflight, take_command, relay_taken, hand_over, add_rest, drain_last,
  relay_round, relay_rounds, settle_frame,
}

-- How many frames of an id a list holds, both lists hold, and how many were published.
unfoldable pub count_frames : ℕ → List Frame → ℕ
count_frames id [] = 0
count_frames id (f ∷ fs) = (if f.command_id == id then 1 else 0) + count_frames id fs

abbrev pub held : ℕ → Queues → ℕ
held id q = count_frames id q.outbound + count_frames id q.inflight

unfoldable pub count_published : ℕ → List Publish → ℕ
count_published id [] = 0
count_published id (p ∷ ps) = (if p.command_id == id then 1 else 0) + count_published id ps

count_published-append :
    (id : ℕ) (ps qs : List Publish)
    → count_published id (ps ++ qs) ≡ count_published id ps + count_published id qs
unfolding count_published
count_published-append id [] qs = omega arith
count_published-append id (p ∷ ps) qs = omega (arith, count_published-append id ps qs)

pub pop_right-append : (fs : List Frame) (f : Frame) → pop_right (fs ++ f ∷ []) ≡ some (fs, f)
unfolding pop_right
pop_right-append [] f = refl
pop_right-append (g ∷ fs) f = rw (pop_right-append fs f) refl

-- An RPOP takes one frame out of the list.
abbrev TakesOne : ℕ → List Frame → Option (List Frame × Frame) → Type 0
TakesOne id fs none = fs ≡ []
TakesOne id fs (some (rest, f)) =
    count_frames id fs ≡ (if f.command_id == id then 1 else 0) + count_frames id rest

takes_behind :
    (id : ℕ) (g : Frame) (fs : List Frame) (m : Option (List Frame × Frame))
    → TakesOne id fs m
    → TakesOne id (g ∷ fs) (some (add_rest g m))
unfolding count_frames
takes_behind id g fs none h = rw h refl
takes_behind id g fs (some (rest, f)) h = omega (arith, h)

pop_right-TakesOne : (id : ℕ) (fs : List Frame) → TakesOne id fs (pop_right fs)
unfolding pop_right
pop_right-TakesOne id [] = refl
pop_right-TakesOne id (g ∷ fs) = takes_behind id g fs (pop_right fs) (pop_right-TakesOne id fs)

-- A round that publishes, or that the broker does not accept, keeps count of the frames.
abbrev pub IsOrderly : Outcome → Type 0
IsOrderly sent = Unit
IsOrderly not_accepted = Unit
IsOrderly _ = ⊥

hand_over-held :
    (id : ℕ) (o : Outcome) (q : Queues) (m : Option (List Frame × Frame))
    → TakesOne id q.outbound m
    → IsOrderly o
    → let (after, ps) = relay_taken o (hand_over m q) in
      held id after + count_published id ps ≡ held id q
unfolding settle_frame count_published count_frames
hand_over-held id sent q none h ok_ = omega arith
hand_over-held id not_accepted q none h ok_ = omega arith
hand_over-held id sent q (some (rest, f)) h ok_ = omega (arith, h)
hand_over-held id not_accepted q (some (rest, f)) h ok_ = omega (arith, h)
hand_over-held id mark_raised q m h ok_ = elim ok_ [ ]
hand_over-held id publish_raised q m h ok_ = elim ok_ [ ]

-- While nothing raises, no frame is lost and none is doubled: what both lists hold of a command after
-- any rounds, with what was published of it, is what they held before.
pub relay_rounds-held :
    (id : ℕ) (os : List Outcome) (q : Queues)
    → All IsOrderly os
    → let (after, ps) = relay_rounds os q in held id after + count_published id ps ≡ held id q
unfolding relay_rounds relay_round take_command
relay_rounds-held id [] q h = unfold count_published in omega arith
relay_rounds-held id (o ∷ os) q h =
    let (q1, ps) = relay_round o q in
    let first =
      hand_over-held id o q (pop_right q.outbound) (pop_right-TakesOne id q.outbound) h.0 in
    let more = relay_rounds-held id os q1 h.1 in
    omega (arith, first, more, count_published-append id ps (relay_rounds os q1).1)

-- A publish that raises leaves one more copy of its frame than there was, and publishes nothing.
pub publish_raised_doubles :
    (q : Queues) (fs : List Frame) (f : Frame)
    → q.outbound ≡ fs ++ f ∷ []
    → let (after, ps) = relay_round publish_raised q in
      (held f.command_id after ≡ held f.command_id q + 1) × (ps ≡ [])
unfolding relay_round take_command settle_frame
publish_raised_doubles q fs f h =
    let taken = pop_right-TakesOne f.command_id q.outbound in
    let last : pop_right q.outbound ≡ some (fs, f) = rw h (pop_right-append fs f) in
    (rw last (unfold count_frames in ground (arith, rw last at taken)), rw last refl)

-- Commands go out in the order in which they came in, when every publish is accepted and marked.
pub relay_rounds-in_order :
    (fs inflight : List Frame)
    → relay_rounds (map (λ f. sent) fs) (record { outbound = reverse fs; inflight = inflight })
      ≡ (record { outbound = []; inflight = inflight }, map on_wire fs)
unfolding relay_rounds relay_round take_command settle_frame
relay_rounds-in_order [] inflight = refl
relay_rounds-in_order (f ∷ fs) inflight =
    rw (reverse-cons f fs, pop_right-append (reverse fs) f, relay_rounds-in_order fs inflight) refl

drain_inflight-last :
    (n : ℕ) (is os : List Frame) (f : Frame)
    → drain_inflight (suc n) (record { outbound = os; inflight = is ++ f ∷ [] })
      ≡ drain_inflight n (record { outbound = f ∷ os; inflight = is })
unfolding drain_inflight
drain_inflight-last n is os f =
    let q : Queues = record { outbound = os; inflight = is ++ f ∷ [] } in
    ap (λ (m : Option (List Frame × Frame)). drain_inflight n (drain_last m q))
      (pop_right-append is f)

-- The start of the loop returns every frame of inflight to outbound, ahead of what is there.
pub drain_inflight-all :
    (is os : List Frame)
    → drain_inflight (length is) (record { outbound = os; inflight = reverse is })
      ≡ record { outbound = reverse is ++ os; inflight = [] }
unfolding drain_inflight
drain_inflight-all [] os = refl
drain_inflight-all (f ∷ is) os = rw (reverse-cons f is) (
    drain_inflight-last (length is) (reverse is) os f
    ∙ drain_inflight-all is (f ∷ os)
    ∙ ap (λ (l : List Frame). record { outbound = l; inflight = [] })
        (sym (append_assoc (reverse is) (f ∷ []) os)))
