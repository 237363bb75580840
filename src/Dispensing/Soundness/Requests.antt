-- ===== src/Dispensing/Soundness/Requests.antt =====
-- Every request keeps the invariant of the tables, however it ends.
use mathlib.Core.Path.{subst}
use fuel_monitoring.Prelude.{
  ℕ, ◌+◌, ◌-◌, ◌≤◌, ◌≡◌, refl, sym, Bool, true, false, Option, none, some, List, [], ◌∷◌, Text,
  text_eq, arith, All, Bool-cases, Option-cases, inl, inr, ◌==◌, keep_if,
}
use fuel_monitoring.Redis.{Redis, rate_limit}
use fuel_monitoring.Security.{Crypto, code_fingerprint}
use fuel_monitoring.Dispensing.Keys.{Key, consumed_set, code_cache, validate_rate, Value}
use fuel_monitoring.Dispensing.Models.{
  Allocation, DispenseCode, Db, CompleteRequest, Result, ok, err, Result-cases, update_code, round3,
  hash_exists, fp_exists,
}
use fuel_monitoring.Dispensing.Generator.{Generated, generate_unique_code}
use fuel_monitoring.Dispensing.Rows.{All-keep_if}
use fuel_monitoring.Dispensing.Inversion.{IsFound, lookup_code-some}
use fuel_monitoring.Dispensing.Soundness.{
  IsBounded, DiffersFrom, AreUnique, IsSound, update_code-AreUnique, FreshLeftover,
  settled_db-IsSound,
}
use fuel_monitoring.Dispensing.Engine.Lookup.{World, lookup_code}
use fuel_monitoring.Dispensing.Engine.Validation.{
  ValidateRequest, state_check, count_attempt, admit, code_rate_limit_per_min, validate_row,
  validate_cached, validate_code,
}
use fuel_monitoring.Dispensing.Engine.Settlement.{
  SettleDraws, Leftover, leaves_partial, leftover_allocation, leftover_code, flushed, make_leftover,
  settle,
}
use fuel_monitoring.Dispensing.Engine.Completion.{
  acquire_lock, complete_row, complete_locked, complete_with, complete_dispense,
}

-- An update of an id that no row has changes nothing.
update_code_none :
    (id : ℕ) (fp hash : Text) (set : DispenseCode → DispenseCode) (cs : List DispenseCode)
    → All (DiffersFrom id fp hash) cs
    → update_code id set cs ≡ cs
unfolding update_code
update_code_none id fp hash set [] h = refl
update_code_none id fp hash set (c ∷ cs) h = ground (arith, update_code_none id fp hash set cs h.1)

-- To update the row that a fingerprint selects, the property of the new row is enough.
All-update_code_row :
    (P : DispenseCode → Type 0) (fp : Text) (set : DispenseCode → DispenseCode)
    (cs : List DispenseCode) (c : DispenseCode)
    → keep_if (λ d. text_eq d.code_fp fp) cs ≡ c ∷ []
    → AreUnique cs
    → P (set c)
    → All P cs
    → All P (update_code c.id set cs)
unfolding update_code
All-update_code_row P fp set [] c one u p h = tt
All-update_code_row P fp set (d ∷ cs) c one u p h = elim (Bool-cases (text_eq d.code_fp fp)) [
  | inl t ↦
      let same : d ≡ c = ground arith in
      let self : (d.id == c.id) ≡ true = ground (arith, same) in
      let alone : update_code c.id set cs ≡ cs =
        update_code_none c.id d.code_fp d.code_hash set cs (
          subst (λ (x : DispenseCode). All (DiffersFrom x.id d.code_fp d.code_hash) cs) same u.0) in
      rw (self, alone) (subst (λ (x : DispenseCode). P (set x)) (sym same) p, h.1)
  | inr f ↦
      let row : keep_if (λ (x : DispenseCode). text_eq x.code_fp fp) cs ≡ c ∷ [] = ground arith in
      let apart =
        All-keep_if (DiffersFrom d.id d.code_fp d.code_hash) (λ x. text_eq x.code_fp fp) cs c row
          u.0 in
      let other : (d.id == c.id) ≡ false = ground (arith, apart.0) in
      rw other (h.0, All-update_code_row P fp set cs c row u.1 p h.1)
]

module _ (crypto : Crypto) (r : Redis Key Value) (now : ℕ) (draws : SettleDraws) where
  flushed-fresh :
      (db : Db) (a : Allocation) (n : ℕ) (g : Generated) (l : Option Leftover)
      → flushed now draws db (leftover_allocation draws.allocation_id a n) n g ≡ ok l
      → FreshLeftover db l
  unfolding flushed leftover_allocation leftover_code
  flushed-fresh db a n g none h = tt
  flushed-fresh db a n g (some l) h = (ground arith, ground arith, ground arith, ground arith)

  pub make_leftover-fresh :
      (db : Db) (s : r.Store) (a : Allocation) (n : ℕ) (l : Option Leftover)
      → make_leftover crypto r now draws db s a n ≡ ok l
      → FreshLeftover db l
  unfolding make_leftover
  make_leftover-fresh db s a n l h = elim (Bool-cases (leaves_partial a n)) [
    | inl t ↦
        let made =
          generate_unique_code crypto r s draws.code (some (hash_exists db)) (some (fp_exists db))
            none in
        elim (Result-cases made) [
          | inl (g, q) ↦ flushed-fresh db a (a.remaining_liters - n) g l (ground arith)
          | inr (e, q) ↦ absurd (ground arith)
        ]
    | inr f ↦
        let whole : none ≡ l = ground arith in
        subst (λ (x : Option Leftover). FreshLeftover db x) whole tt
  ]

module _ (crypto : Crypto) (r : Redis Key Value) (now : ℕ) (draws : SettleDraws)
    (req : CompleteRequest) where
  -- The tables after an answer: the old ones, or those of a settlement.
  settle-IsSound :
      (c : DispenseCode) (a : Allocation) (w : World r)
      → IsFound crypto req.code w.db c a
      → IsSound w.db
      → IsSound (settle crypto r now draws (code_fingerprint crypto req.code) req c a w).1.db
  unfolding settle
  settle-IsSound c a w found sound =
      elim (Result-cases
        (make_leftover crypto r now draws w.db w.store a (round3 req.actual_liters))) [
          | inl (l, q) ↦ rw q (
              settled_db-IsSound crypto now w.db req c a found sound l (
                make_leftover-fresh crypto r now draws w.db w.store a (round3 req.actual_liters) l
                  q))
          | inr (e, q) ↦ rw q sound
        ]

  complete_row-IsSound :
      (m : Result (Option (DispenseCode × Allocation))) (w : World r)
      → lookup_code crypto req.code w.db ≡ m
      → IsSound w.db
      → IsSound (complete_row crypto r now draws req m w).1.db
  unfolding complete_row
  complete_row-IsSound (err e) w q sound = sound
  complete_row-IsSound (ok none) w q sound = sound
  complete_row-IsSound (ok (some (c, a))) w q sound =
      settle-IsSound c a w (lookup_code-some crypto req.code w.db c a q) sound

  complete_locked-IsSound :
      (w : World r) → IsSound w.db → IsSound (complete_locked crypto r now draws req w).1.db
  unfolding complete_locked
  complete_locked-IsSound w sound =
      elim (Bool-cases (r.sismember consumed_set (code_fingerprint crypto req.code) w.store)) [
        | inl t ↦ rw t sound
        | inr f ↦ rw f (complete_row-IsSound (lookup_code crypto req.code w.db) w refl sound)
      ]

  complete_with-IsSound :
      (w : World r) (won : Bool × r.Store)
      → IsSound w.db
      → IsSound (complete_with crypto r now draws req w won).1.db
  unfolding complete_with
  complete_with-IsSound w (false, s) sound = sound
  complete_with-IsSound w (true, s) sound = complete_locked-IsSound (record w { store = s }) sound

  -- Whatever a settlement request meets - a busy lock, a replay, an unknown code, an exception, a
  -- full or a partial dispense - sound tables stay sound.
  pub complete_dispense-IsSound :
      (others : ℕ → r.Store → r.Store) (w : World r)
      → IsSound w.db
      → IsSound (complete_dispense crypto r others now draws req w).1.db
  unfolding complete_dispense
  complete_dispense-IsSound others w sound =
      complete_with-IsSound w
        (acquire_lock crypto r others 50 0 (code_fingerprint crypto req.code) w.store) sound

module _ (crypto : Crypto) (r : Redis Key Value) (now : ℕ) where
  -- A code that passes the state checks has an attempt left.
  state_check-attempts :
      (c : DispenseCode) (a : Allocation)
      → state_check now c a ≡ none
      → c.attempt_count + 1 ≤ c.max_attempts
  unfolding state_check
  state_check-attempts c a h = ground arith

  validate_row-IsSound :
      (code : Text) (m : Result (Option (DispenseCode × Allocation))) (w : World r)
      → lookup_code crypto code w.db ≡ m
      → IsSound w.db
      → IsSound (validate_row crypto r now (code_fingerprint crypto code) m w).1.db
  unfolding validate_row
  validate_row-IsSound code (err e) w q sound = sound
  validate_row-IsSound code (ok none) w q sound = sound
  validate_row-IsSound code (ok (some (c, a))) w q sound =
      let found = lookup_code-some crypto code w.db c a q in
      elim (Option-cases (state_check now c a)) [
        | inr (why, e) ↦ rw e (unfold admit in sound)
        | inl pass ↦ rw pass (
            unfold admit in
            record {
              balanced = sound.balanced;
              quotas = sound.quotas;
              attempts =
                  All-update_code_row IsBounded (code_fingerprint crypto code) (count_attempt c)
                    w.db.codes c found.code_row sound.unique (state_check-attempts c a pass)
                    sound.attempts;
              unique =
                  update_code-AreUnique c.id (count_attempt c) w.db.codes (λ d. (refl, refl, refl))
                    sound.unique;
            })
      ]

  validate_cached-IsSound :
      (code : Text) (hit : Option Value) (w : World r)
      → IsSound w.db
      → IsSound (validate_cached crypto r now code hit w).1.db
  unfolding validate_cached
  validate_cached-IsSound code (some v) w sound = sound
  validate_cached-IsSound code none w sound =
      validate_row-IsSound code (lookup_code crypto code w.db) w refl sound

  -- A validation request keeps sound tables sound: it counts no attempt past the limit of its code.
  pub validate_code-IsSound :
      (now_ms : ℕ) (req : ValidateRequest) (w : World r)
      → IsSound w.db
      → IsSound (validate_code crypto r now now_ms req w).1.db
  unfolding validate_code
  validate_code-IsSound now_ms req w sound =
      let fp = code_fingerprint crypto req.code in
      let limited =
        rate_limit r now_ms (validate_rate req.station_id) code_rate_limit_per_min 60 w.store in
      elim (Bool-cases (r.sismember consumed_set fp w.store)) [
        | inl t ↦ rw t sound
        | inr f ↦ elim (Bool-cases limited.0.0) [
          | inl go ↦
              rw (f, go)
                (validate_cached-IsSound req.code (r.get (code_cache fp) limited.1)
                  (record w { store = limited.1 }) sound)
          | inr stop ↦ rw (f, stop) sound
        ]
      ]
