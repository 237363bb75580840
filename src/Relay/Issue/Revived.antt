-- ===== src/Relay/Issue/Revived.antt =====
-- A command that expired is published nevertheless.
use mathlib.Core.List.{append_assoc}
use fuel_monitoring.Prelude.{
  ap, sym, ◌∙◌, ℕ, ◌+◌, ◌<◌, ◌≡◌, refl, true, List, [], ◌∷◌, ◌++◌, Text, codes, text_eq, ◌==◌, ltb,
  arith, Bool-cases, inl, inr,
}
use fuel_monitoring.Auth.Login.{User, answer}
use fuel_monitoring.Auth.Sessions.{tenant_scope, require_roles}
use fuel_monitoring.Relay.Queue.{
  Frame, Queues, sent, relay_round, enqueue_command, take_command, settle_frame,
}
use fuel_monitoring.Relay.Rows.{
  GatewayCommand, failed, never_relayed, pending_ttl, failed_with, retry, exhaust, expire,
  sweep_rows, scan_and_sweep, frame_of, mark_sent, marked_sent, is_retried,
}
use fuel_monitoring.Relay.Flow.{pop_right-append}
use fuel_monitoring.Relay.Issue.{
  Target, CarriedTank, Commands, get_gateway, new_command, issue_command,
}

-- The first loop of a sweep puts its frames before those that wait.
retry_before :
    (now : ℕ) (cs : List GatewayCommand) (q : Queues)
    → (fs : List Frame) × ((retry now cs q).1.outbound ≡ fs ++ q.outbound)
unfolding retry enqueue_command
retry_before now [] q = ([], refl)
retry_before now (c ∷ cs) q = elim (Bool-cases (is_retried now c)) [
  | inl y ↦
      let (fs, e) = retry_before now cs (enqueue_command (frame_of now c) q) in
      (fs ++ frame_of now c ∷ [], rw y (e ∙ sym (append_assoc fs (frame_of now c ∷ []) q.outbound)))
  | inr n ↦ let (fs, e) = retry_before now cs q in (fs, rw n e)
]

module _ (now later command_id : ℕ) (type payload : Text) (g : Target) where
  abbrev issued : GatewayCommand
  issued = new_command now command_id type payload g

  -- What is published after a sweep of the table that starts with the new row
  published_after :
      (rows : List GatewayCommand) (q : Queues)
      → q.outbound ≡ frame_of now issued ∷ []
      → (relay_round sent (scan_and_sweep later (issued ∷ rows) q).1).1
        ≡ record { command_id = command_id; attempts = 1 } ∷ []
  unfolding relay_round scan_and_sweep take_command settle_frame retry
  published_after rows q one =
      let (fs, e) = retry_before later rows q in
      let all : (retry later rows q).1.outbound ≡ fs ++ frame_of now issued ∷ [] =
        e ∙ ap (λ (l : List Frame). fs ++ l) one in
      rw (all, pop_right-append fs (frame_of now issued)) refl

  expired_row :
      now + pending_ttl < later
      → expire later (exhaust later issued) ≡ failed_with never_relayed issued
  unfolding expire exhaust
  expired_row h = let due : ltb (now + pending_ttl) later ≡ true = ground arith in rw due refl

  module _ (caller : User) (tanks : List CarriedTank) (gs : List Target) (id : ℕ) where
    issue_command_lem :
        (st : Commands)
        → text_eq caller.role (codes "admin") ≡ true
        → get_gateway (tenant_scope caller) tanks id gs ≡ answer g
        → g.is_active ≡ true
        → issue_command now command_id true type payload caller tanks gs id st ≡ (
          answer command_id,
          record {
            rows = issued ∷ st.rows;
            queues = enqueue_command (frame_of now issued) st.queues;
          },
        )
    unfolding issue_command require_roles
    issue_command_lem st admin seen active = rw (admin, seen, active) refl

    -- An administrator's command to an active gateway that finds no other waiting is accepted. When a
    -- sweep comes more than two minutes later, before the relay, the row of the command has failed;
    -- but its frame is still in the queue: the next round of the relay publishes it, and marks the row
    -- as sent, so that it waits for an answer and is retried.
    pub expired_is_revived :
        (st : Commands)
        → text_eq caller.role (codes "admin") ≡ true
        → get_gateway (tenant_scope caller) tanks id gs ≡ answer g
        → g.is_active ≡ true
        → st.queues.outbound ≡ []
        → now + pending_ttl < later
        → let (response, st') =
            issue_command now command_id true type payload caller tanks gs id st in
          let (rows, queues) = scan_and_sweep later st'.rows st'.queues in
          (swept : GatewayCommand) × (rest : List GatewayCommand) × (response ≡ answer command_id)
          × (rows ≡ swept ∷ rest)
          × (swept.status ≡ failed)
          × ((relay_round sent queues).1 ≡ record { command_id = command_id; attempts = 1 } ∷ [])
          × (mark_sent later command_id rows
              ≡ marked_sent later swept ∷ mark_sent later command_id rest)
    expired_is_revived st admin seen active free late =
        let q = enqueue_command (frame_of now issued) st.queues in
        let one : q.outbound ≡ frame_of now issued ∷ [] =
          unfold enqueue_command in ap (λ (l : List Frame). frame_of now issued ∷ l) free in
        let same : (command_id == command_id) ≡ true = ground arith in
        let swept : (scan_and_sweep later (issued ∷ st.rows) q).0
            ≡ failed_with never_relayed issued ∷ sweep_rows later (retry later st.rows q).0 =
          unfold scan_and_sweep retry sweep_rows in rw (expired_row late) refl in
        rw (issue_command_lem st admin seen active) (
          failed_with never_relayed issued,
          sweep_rows later (retry later st.rows q).0,
          refl,
          swept,
          refl,
          published_after st.rows q one,
          rw swept (unfold mark_sent in rw same refl),
        )
