-- ===== src/Notify/Dispatcher/Delivery.antt =====
-- What a delivery leaves in the log.
use fuel_monitoring.Prelude.{
  ap, ◌∙◌, sym, ℕ, zero, suc, ◌+◌, ◌≡◌, refl, inl, inr, Option, none, some, List, [], ◌∷◌, ◌++◌,
  Text, length, All, All-append, keep_if, arith, Bool-cases,
}
use mathlib.Core.List.{append_assoc, append-nil}
use fuel_monitoring.Notify.Rules.{NotificationGateway, serves_channel}
use fuel_monitoring.Notify.Dispatcher.{
  PendingDispatch, DeliveryStatus, DeliveryLog, DispatchResult, Answer, delivered, refused,
  Progress, load_active_gateways, channel, log_row, logged, try_gateways, try_attempts, after_sleep,
  result_of, start, dispatch, dispatch_over, settled, or_again,
}

-- The gateways that can carry an item.
abbrev pub carriers : Text → List NotificationGateway → List NotificationGateway
carriers c gs = keep_if (λ g. serves_channel c g.type) gs

abbrev pub ids_of : List NotificationGateway → List ℕ
ids_of [] = []
ids_of (g ∷ gs) = g.id ∷ ids_of gs

abbrev pub logged_ids : List DeliveryLog → List ℕ
logged_ids [] = []
logged_ids (l ∷ ls) = l.gateway_id ∷ logged_ids ls

logged_ids-append :
    (ls ms : List DeliveryLog) → logged_ids (ls ++ ms) ≡ logged_ids ls ++ logged_ids ms
logged_ids-append [] ms = refl
logged_ids-append (l ∷ ls) ms = ap (λ (k : List ℕ). l.gateway_id ∷ k) (logged_ids-append ls ms)

abbrev pub repeated : ℕ → List ℕ → List ℕ
repeated zero ids = []
repeated (suc n) ids = ids ++ repeated n ids

abbrev pub IsFailed : DeliveryLog → Type 0
IsFailed l = l.status ≡ DeliveryStatus.failed

module _ (send : (n : ℕ) → NotificationGateway → Answer) (now : ℕ → ℕ)
    (item : PendingDispatch) where
  -- How the log of a run continues one that was there, when the gateways with these ids are tried in
  -- this order: with a failure for each of them, or with a failure for each of the first ones and the
  -- one row of the delivery that is returned, for the next one.
  abbrev Continues : List ℕ → Progress → Option (ℕ × Text) × Progress → Type 0
  Continues ids p (none, p') =
      (more : List DeliveryLog) × (p'.logs ≡ p.logs ++ more)
      × All IsFailed more
      × (logged_ids more ≡ ids)
  Continues ids p (some (g, id), p') =
      (more : List DeliveryLog) × (l : DeliveryLog) × (p'.logs ≡ p.logs ++ (more ++ l ∷ []))
      × All IsFailed more
      × (l.status ≡ DeliveryStatus.sent)
      × (l.gateway_id ≡ g)
      × (l.provider_message_id ≡ some id)
      × (left : List ℕ) × (logged_ids more ++ l.gateway_id ∷ left ≡ ids)

  -- Failures that come first count for both.
  Continues-shift :
      (m n : List ℕ) (first : List DeliveryLog) (p p1 : Progress) (x : Option (ℕ × Text) × Progress)
      → m ≡ logged_ids first ++ n
      → All IsFailed first
      → p1.logs ≡ p.logs ++ first
      → Continues n p1 x
      → Continues m p x
  Continues-shift m n first p p1 (none, p') total lost e (more, logs, fails, count) = (
    first ++ more,
    logs ∙ ap (λ (l : List DeliveryLog). l ++ more) e ∙ append_assoc p.logs first more,
    All-append IsFailed first more lost fails,
    logged_ids-append first more ∙ ap (λ (k : List ℕ). logged_ids first ++ k) count ∙ sym total,
  )
  Continues-shift m n first p p1 (some (g, id), p') total lost e
        (more, l, logs, fails, ok_, gw, pid, left, count) =
      (
        first ++ more,
        l,
        logs
            ∙ ap (λ (k : List DeliveryLog). k ++ (more ++ l ∷ [])) e
            ∙ append_assoc p.logs first (more ++ l ∷ [])
            ∙ ap (λ (k : List DeliveryLog). p.logs ++ k) (sym (append_assoc first more (l ∷ []))),
        All-append IsFailed first more lost fails,
        ok_,
        gw,
        pid,
        left,
        ap (λ (k : List ℕ). k ++ l.gateway_id ∷ left) (logged_ids-append first more)
            ∙ append_assoc (logged_ids first) (logged_ids more) (l.gateway_id ∷ left)
            ∙ ap (λ (k : List ℕ). logged_ids first ++ k) count
            ∙ sym total,
      )

  try_gateways-Continues :
      (attempt : ℕ) (gs : List NotificationGateway) (p : Progress)
      → Continues
          (ids_of (carriers (channel send now item) gs))
          p
          (try_gateways send now item attempt gs p)
  unfolding try_gateways
  try_gateways-Continues attempt [] p = ([], sym (append-nil p.logs), tt, refl)
  try_gateways-Continues attempt (g ∷ gs) p =
      elim (Bool-cases (serves_channel (channel send now item) g.type)) [
        | inl y ↦
            rw y (answered (send (length p.logs) g) (λ p1. try_gateways-Continues attempt gs p1))
        | inr n ↦ rw n (try_gateways-Continues attempt gs p)
      ]
    where
      answered :
          (a : Answer)
          → ((p1 : Progress)
              → Continues
                  (ids_of (carriers (channel send now item) gs))
                  p1
                  (try_gateways send now item attempt gs p1))
          → Continues
              (g.id ∷ ids_of (carriers (channel send now item) gs))
              p
              (settled send now item attempt g a (try_gateways send now item attempt gs) p)
      answered (delivered id) rest = (
        [],
        log_row send now item attempt g (length p.logs) (delivered id),
        refl,
        tt,
        refl,
        refl,
        refl,
        ids_of (carriers (channel send now item) gs),
        refl,
      )
      answered (refused e) rest =
          let row = log_row send now item attempt g (length p.logs) (refused e) in
          Continues-shift (g.id ∷ ids_of (carriers (channel send now item) gs))
            (ids_of (carriers (channel send now item) gs)) (row ∷ []) p
            (logged send now item attempt g (refused e) p)
            (try_gateways send now item attempt gs (logged send now item attempt g (refused e) p))
            refl (refl, tt) refl (rest (logged send now item attempt g (refused e) p))

  logs-after_sleep :
      (attempt : ℕ) (p : Progress) → (after_sleep send now item attempt p).logs ≡ p.logs
  logs-after_sleep attempt p = ground arith

  -- A round that delivers ends the run; one that fails is followed by the rounds that are left.
  or_again-Continues :
      (m k j : List ℕ) (attempt : ℕ) (p : Progress)
      (again : Progress → Option (ℕ × Text) × Progress) (x : Option (ℕ × Text) × Progress)
      → m ≡ k ++ j
      → Continues k p x
      → ((p1 : Progress) → Continues j p1 (again p1))
      → Continues m p (or_again send now item attempt again x)
  or_again-Continues m k j attempt p again (none, p') total (more, logs, fails, count) rest =
      let p1 = after_sleep send now item attempt p' in
      Continues-shift m j more p p1 (again p1) (total ∙ ap (λ (i : List ℕ). i ++ j) (sym count))
        fails (logs-after_sleep attempt p' ∙ logs) (rest p1)
  or_again-Continues m k j attempt p again (some (g, id), p') total
        (more, l, logs, fails, ok_, gw, pid, left, count) rest =
      (
        more,
        l,
        logs,
        fails,
        ok_,
        gw,
        pid,
        left ++ j,
        sym (append_assoc (logged_ids more) (l.gateway_id ∷ left) j)
            ∙ ap (λ (i : List ℕ). i ++ j) count
            ∙ sym total,
      )

  try_attempts-Continues :
      (left attempt : ℕ) (gs : List NotificationGateway) (p : Progress)
      → Continues
          (repeated left (ids_of (carriers (channel send now item) gs)))
          p
          (try_attempts send now item left attempt gs p)
  unfolding try_attempts
  try_attempts-Continues zero attempt gs p = ([], sym (append-nil p.logs), tt, refl)
  try_attempts-Continues (suc left) attempt gs p =
      let k = ids_of (carriers (channel send now item) gs) in
      or_again-Continues (k ++ repeated left k) k (repeated left k) attempt p
        (try_attempts send now item left (attempt + 1) gs) (try_gateways send now item attempt gs p)
        refl (try_gateways-Continues attempt gs p)
        (λ p1. try_attempts-Continues left (attempt + 1) gs p1)

  -- How a delivery ends, and what it logs when the gateways with these ids are tried in this order: a
  -- result that is sent, with a failure for each of the first ones, before one last row that is the
  -- delivery of the result by the next one; or a result that failed, with a failure for each.
  abbrev pub IsAccounted : List ℕ → DispatchResult × Progress → Type 0
  IsAccounted ids (result, p) = elim result.status [
    | DeliveryStatus.sent ↦
        (more : List DeliveryLog) × (l : DeliveryLog) × (p.logs ≡ more ++ l ∷ [])
        × All IsFailed more
        × (l.status ≡ DeliveryStatus.sent)
        × (result.gateway_id ≡ some l.gateway_id)
        × (result.provider_message_id ≡ l.provider_message_id)
        × (left : List ℕ) × (logged_ids more ++ l.gateway_id ∷ left ≡ ids)
    | DeliveryStatus.failed ↦ All IsFailed p.logs × (logged_ids p.logs ≡ ids)
  ]

  result_of-IsAccounted :
      (ids : List ℕ) (e : Option Text) (x : Option (ℕ × Text) × Progress)
      → Continues ids (start send now item e) x
      → IsAccounted ids (result_of send now item x)
  result_of-IsAccounted ids e (none, p) (more, logs, fails, count) = rw logs (fails, count)
  result_of-IsAccounted ids e (some (g, id), p) (more, l, logs, fails, ok_, gw, pid, left, count) =
      (more, l, logs, fails, ok_, ap some (sym gw), sym pid, left, count)

  dispatch_over-IsAccounted :
      (gs : List NotificationGateway)
      → IsAccounted
          (repeated 3 (ids_of (carriers (channel send now item) gs)))
          (dispatch_over send now item gs)
  dispatch_over-IsAccounted [] = (tt, refl)
  dispatch_over-IsAccounted (g ∷ gs) =
      result_of-IsAccounted (repeated 3 (ids_of (carriers (channel send now item) (g ∷ gs)))) none
        (try_attempts send now item 3 1 (g ∷ gs) (start send now item none))
        (try_attempts-Continues 3 1 (g ∷ gs) (start send now item none))

  -- A delivery goes through the active gateways of the tenant that carry the channel, three times, in
  -- their order. One that is sent has logged a failure for each gateway before the last one, and for
  -- that one the delivery of its result. One that fails has logged a failure for each of them, in each
  -- of the three rounds, and nothing else.
  pub dispatch-IsAccounted :
      (table : List NotificationGateway)
      → IsAccounted
          (repeated 3 (
            ids_of (carriers (channel send now item) (load_active_gateways item.company_id table))))
          (dispatch send now item table)
  unfolding dispatch
  dispatch-IsAccounted table =
      dispatch_over-IsAccounted (load_active_gateways item.company_id table)
