-- ===== src/Dispensing/Replay.antt =====
-- A code is settled once: a repeated request finds the settled transaction and changes no table.
use mathlib.Core.Path.{subst}
use fuel_monitoring.Prelude.{
  ap, ℕ, suc, ◌≡◌, refl, sym, ◌∙◌, Bool-cases, Bool, true, false, Option, none, some, Text, arith,
  inl, inr, if◌then◌else◌,
}
use fuel_monitoring.Redis.{Redis, RedisLaws}
use fuel_monitoring.Security.{Crypto, code_fingerprint}
use fuel_monitoring.Dispensing.Keys.{Key, consumed_set, lock, code_cache, Value, marker}
use fuel_monitoring.Dispensing.Models.{
  Allocation, DispenseCode, DispenseTransaction, CompleteRequest, CompleteResponse, Result, ok, err,
  redis_error, Result-cases, round3,
}
use fuel_monitoring.Dispensing.Inversion.{lookup_code-some, respond-settled}
use fuel_monitoring.Dispensing.Soundness.Requests.{make_leftover-fresh}
use fuel_monitoring.Dispensing.Settled.{find_existing_txn-settled}
use fuel_monitoring.Dispensing.Engine.Lookup.{World, lookup_code, find_existing_txn}
use fuel_monitoring.Dispensing.Engine.Settlement.{
  SettleDraws, Leftover, make_leftover, settle, settled_db, settled_response, new_txn, after_commit,
  Writes, all_done, mark_raises, delete_raises, cache_raises, has_raised, respond,
}
use fuel_monitoring.Dispensing.Engine.Completion.{
  lock_attempts, acquire_lock, release_lock, complete_row, complete_locked, complete_with, replayed,
  from_existing, complete_dispense,
}

module _ (crypto : Crypto) (r : Redis Key Value) (laws : RedisLaws r) where
  -- The store knows the code as consumed, and its transaction is found.
  record IsSettled (code : Text) (x : CompleteResponse) (w : World r) : Type 0 where
    consumed : r.sismember consumed_set (code_fingerprint crypto code) w.store ≡ true
    txn : DispenseTransaction
    existing : find_existing_txn crypto code w.db ≡ ok (some txn)
    same_id : txn.id ≡ x.transaction_id
    same_liters : txn.actual_liters ≡ x.actual_liters

  -- the mark stays when the cached answer is dropped
  marked_consumed :
      (fp : Text) (s : r.Store)
      → r.sismember consumed_set fp (r.delete (code_cache fp) (r.sadd consumed_set fp s)) ≡ true
  marked_consumed fp s =
      laws.sismember-delete_ne (code_cache fp) consumed_set fp (r.sadd consumed_set fp s) (λ e. cc)
      ∙ laws.sismember-sadd_self consumed_set fp s

  after_commit-consumed :
      (writes : Writes) (fp : Text) (a : Allocation) (l : Option Leftover) (s : r.Store)
      → has_raised writes l ≡ false
      → r.sismember consumed_set fp (after_commit crypto r writes fp a l s) ≡ true
  unfolding after_commit
  after_commit-consumed mark_raises fp a l s h = absurd (ground arith)
  after_commit-consumed delete_raises fp a l s h = absurd (ground arith)
  after_commit-consumed cache_raises fp a l s h = marked_consumed fp s
  after_commit-consumed all_done fp a none s h = marked_consumed fp s
  after_commit-consumed all_done fp a (some l) s h =
      laws.sismember-set_ex_ne (code_cache l.generated.code_fp) consumed_set fp _ 300
        (r.delete (code_cache fp) (r.sadd consumed_set fp s)) (λ e. cc)
      ∙ marked_consumed fp s

  replayed-IsSettled :
      (code : Text) (x : CompleteResponse) (w : World r) (m : Result (Option DispenseTransaction))
      → r.sismember consumed_set (code_fingerprint crypto code) w.store ≡ true
      → find_existing_txn crypto code w.db ≡ m
      → replayed crypto r m ≡ ok x
      → IsSettled code x w
  replayed-IsSettled code x w (err e) c q h = absurd (cc)
  replayed-IsSettled code x w (ok none) c q h = absurd (cc)
  replayed-IsSettled code x w (ok (some t)) c q h = record {
    consumed = c;
    txn = t;
    existing = q;
    same_id = ground arith;
    same_liters = ground arith;
  }

  module _ (now : ℕ) (draws : SettleDraws) (req : CompleteRequest) where
    commit-IsSettled :
        (c : DispenseCode) (a : Allocation) (w : World r) (x : CompleteResponse)
        (l : Option Leftover)
        → lookup_code crypto req.code w.db ≡ ok (some (c, a))
        → make_leftover crypto r now draws w.db w.store a (round3 req.actual_liters) ≡ ok l
        → (if has_raised draws.writes l
            then err redis_error
            else respond (settled_response w.db req c a l))
          ≡ ok x
        → IsSettled req.code x (record {
          db = settled_db now w.db req c a l;
          store = after_commit crypto r draws.writes (code_fingerprint crypto req.code) a l w.store;
        })
    commit-IsSettled c a w x l row made h = record {
      consumed =
          after_commit-consumed draws.writes (code_fingerprint crypto req.code) a l w.store
            (ground arith);
      txn = new_txn w.db req c a;
      existing =
          find_existing_txn-settled crypto now w.db req c a
            (lookup_code-some crypto req.code w.db c a row) l
            (make_leftover-fresh crypto r now draws w.db w.store a (round3 req.actual_liters) l
              made);
      same_id = unfold settled_response new_txn in ground (arith, respond-settled w.db req c a l);
      same_liters =
          unfold settled_response new_txn in ground (arith, respond-settled w.db req c a l);
    }

    complete_row-IsSettled :
        (m : Result (Option (DispenseCode × Allocation))) (w : World r) (x : CompleteResponse)
        → lookup_code crypto req.code w.db ≡ m
        → (complete_row crypto r now draws req m w).0 ≡ ok x
        → IsSettled req.code x (complete_row crypto r now draws req m w).1
    unfolding complete_row settle
    complete_row-IsSettled (err e) w x q h = absurd (cc)
    complete_row-IsSettled (ok none) w x q h = absurd (cc)
    complete_row-IsSettled (ok (some (c, a))) w x q h =
        elim (Result-cases
          (make_leftover crypto r now draws w.db w.store a (round3 req.actual_liters))) [
            | inl (l, made) ↦ rw made (commit-IsSettled c a w x l q made (rw made at h))
            | inr (e, made) ↦ absurd (ground arith)
          ]

    -- A successful answer under the lock leaves the code settled.
    complete_locked-IsSettled :
        (w : World r) (x : CompleteResponse)
        → (complete_locked crypto r now draws req w).0 ≡ ok x
        → IsSettled req.code x (complete_locked crypto r now draws req w).1
    unfolding complete_locked
    complete_locked-IsSettled w x h =
        elim (Bool-cases (r.sismember consumed_set (code_fingerprint crypto req.code) w.store)) [
          | inl t ↦ rw t (
              replayed-IsSettled req.code x w (find_existing_txn crypto req.code w.db) t refl
                (rw t at h))
          | inr f ↦
              rw f (complete_row-IsSettled (lookup_code crypto req.code w.db) w x refl (rw f at h))
        ]

  -- The lock of a code that was just released is free.
  acquire_lock-released :
      (others : ℕ → r.Store → r.Store) (left i : ℕ) (fp : Text) (s : r.Store)
      → acquire_lock crypto r others (suc left) i fp (r.delete (lock fp) s)
        ≡ (true, (r.set_nx_ex (lock fp) marker 30 (r.delete (lock fp) s)).1)
  unfolding acquire_lock
  acquire_lock-released others left i fp s = rw (laws.set_nx-delete (lock fp) marker 30 s)

  -- Taking and releasing the lock of a code leaves its mark.
  relocked :
      (fp : Text) (s : r.Store)
      → r.sismember consumed_set fp s ≡ true
      → r.sismember consumed_set fp (r.set_nx_ex (lock fp) marker 30 (r.delete (lock fp) s)).1
        ≡ true
  relocked fp s h =
      laws.sismember-set_nx_ne (lock fp) consumed_set fp marker 30 (r.delete (lock fp) s) (λ e. cc)
      ∙ (laws.sismember-delete_ne (lock fp) consumed_set fp s (λ e. cc) ∙ h)

  answer_again :
      (others : ℕ → r.Store → r.Store) (now : ℕ) (draws : SettleDraws) (req : CompleteRequest)
      (w : World r) (t : DispenseTransaction)
      → r.sismember consumed_set (code_fingerprint crypto req.code) w.store ≡ true
      → find_existing_txn crypto req.code w.db ≡ ok (some t)
      → let fp = code_fingerprint crypto req.code in
        complete_dispense crypto r others now draws req (release_lock crypto r fp w) ≡ (
          ok (from_existing t),
          release_lock crypto r fp (record w {
            store = (r.set_nx_ex (lock fp) marker 30 (r.delete (lock fp) w.store)).1;
          }),
        )
  unfolding complete_dispense complete_with complete_locked
  answer_again others now draws req w t consumed existing =
      let fp = code_fingerprint crypto req.code in
      rw (acquire_lock-released others 49 0 fp w.store, relocked fp w.store consumed, existing)

  complete_with-IsSettled :
      (now : ℕ) (draws : SettleDraws) (req : CompleteRequest) (x : CompleteResponse) (w : World r)
      (won : Bool × r.Store)
      → (complete_with crypto r now draws req w won).0 ≡ ok x
      → (v : World r) × IsSettled req.code x v
        × ((complete_with crypto r now draws req w won).1
            ≡ release_lock crypto r (code_fingerprint crypto req.code) v)
  unfolding complete_with
  complete_with-IsSettled now draws req x w (false, s) h = absurd (cc)
  complete_with-IsSettled now draws req x w (true, s) h = (
    (complete_locked crypto r now draws req (record w { store = s })).1,
    complete_locked-IsSettled now draws req (record w { store = s }) x h,
    refl,
  )

  complete_dispense-IsSettled :
      (others : ℕ → r.Store → r.Store) (now : ℕ) (draws : SettleDraws) (req : CompleteRequest)
      (x : CompleteResponse) (w : World r)
      → (complete_dispense crypto r others now draws req w).0 ≡ ok x
      → (v : World r) × IsSettled req.code x v
        × ((complete_dispense crypto r others now draws req w).1
            ≡ release_lock crypto r (code_fingerprint crypto req.code) v)
  unfolding complete_dispense
  complete_dispense-IsSettled others now draws req x w h =
      complete_with-IsSettled now draws req x w
        (acquire_lock crypto r others lock_attempts 0 (code_fingerprint crypto req.code) w.store) h

-- A code is settled at most once. After a successful answer for a code, a request with the same code,
-- whatever its litres, in the world that the answer left also succeeds, with the same transaction id
-- and litres, and leaves the tables as they are.
pub complete_dispense_once :
    (crypto : Crypto) (r : Redis Key Value) (others others' : ℕ → r.Store → r.Store) (now now' : ℕ)
    (draws draws' : SettleDraws) (req req' : CompleteRequest) (w : World r) (x : CompleteResponse)
    → RedisLaws r
    → req'.code ≡ req.code
    → (complete_dispense crypto r others now draws req w).0 ≡ ok x
    → let after = (complete_dispense crypto r others now draws req w).1 in
      let (answer, later) = complete_dispense crypto r others' now' draws' req' after in
      (y : CompleteResponse) × (answer ≡ ok y)
      × (y.success ≡ true)
      × (y.transaction_id ≡ x.transaction_id)
      × (y.actual_liters ≡ x.actual_liters)
      × (later.db ≡ after.db)
complete_dispense_once crypto r others others' now now' draws draws' req req' w x laws same h =
    let (v, settled, released) =
      complete_dispense-IsSettled crypto r laws others now draws req x w h in
    let moved = subst (λ (k : Text). IsSettled crypto r laws k x v) (sym same) settled in
    let again =
      answer_again crypto r laws others' now' draws' req' v moved.txn moved.consumed
        moved.existing in
    let unlocked =
      released
      ∙ ap (λ (k : Text). release_lock crypto r (code_fingerprint crypto k) v) (sym same) in
    rw (unlocked, again)
      (from_existing moved.txn, refl, refl, moved.same_id, moved.same_liters, refl)
