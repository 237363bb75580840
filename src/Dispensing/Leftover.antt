-- ===== src/Dispensing/Leftover.antt =====
-- The code for the leftover of a partial dispense: the next lookup finds it, for the litres left.
use mathlib.Core.Path.{subst}
use fuel_monitoring.Prelude.{
  ◌||◌, ℕ, ◌+◌, ◌-◌, ◌≡◌, refl, ◌≢◌, ◌∙◌, sym, ap, inl, inr, true, false, Option, none, some, [],
  ◌∷◌, Text, text_eq, text_eq_refl, arith, All, ◌==◌,
}
use fuel_monitoring.Redis.{Redis}
use fuel_monitoring.Security.{Crypto, HexDigests, code_fingerprint, verify_code}
use fuel_monitoring.Security.Codes.{verify-hash}
use fuel_monitoring.Dispensing.Keys.{Key, consumed_set, Value}
use fuel_monitoring.Dispensing.Models.{
  Allocation, DispenseCode, CodeStatus, Db, CompleteRequest, CompleteResponse, ok, Result-cases,
  round3, fp_exists, hash_exists, codes_with_fp, allocations_with_id, update_code,
  update_allocation,
}
use fuel_monitoring.Dispensing.Generator.{Generated, generate_unique_code}
use fuel_monitoring.Dispensing.Generator.Laws.{generate_unique_code-ok}
use fuel_monitoring.Dispensing.Rows.{
  keep_if_unmatched, any_weaken, keep_if-update_code, keep_if-update_allocation,
}
use fuel_monitoring.Dispensing.Inversion.{IsFound, lookup_code-some, respond-settled}
use fuel_monitoring.Dispensing.Engine.Lookup.{World, lookup_code, verified_row}
use fuel_monitoring.Dispensing.Engine.Settlement.{
  SettleDraws, Leftover, settled_allocation, settled_code, settled_db, settled_response,
  leaves_partial, leftover_allocation, leftover_code, flushed, make_leftover, violates_unique,
  settle,
}
use fuel_monitoring.Dispensing.Engine.Completion.{complete_row, complete_locked}

module _ (crypto : Crypto) (r : Redis Key Value) (now : ℕ) (draws : SettleDraws) where
  -- What a leftover is made of.
  flushed-some :
      (db : Db) (alloc : Allocation) (n : ℕ) (g : Generated) (l : Option Leftover)
      → flushed now draws db alloc n g ≡ ok l
      → let c = leftover_code now draws.code_id alloc.id g n in
        (l ≡ some (record { allocation = alloc; code = c; generated = g }))
        × (violates_unique db c alloc ≡ false)
  unfolding flushed
  flushed-some db alloc n g l h = (ground arith, ground arith)

  module _ (hex : HexDigests crypto)
      (salts : (i : ℕ) → All (λ x. x ≢ b'$') (draws.code.salt i)) where
    -- A generated code verifies against the hash that is stored for it.
    generated_verifies :
        (db : Db) (s : r.Store) (g : Generated)
        → generate_unique_code crypto r s draws.code
            (some (hash_exists db))
            (some (fp_exists db))
            none
          ≡ ok g
        → (verify_code crypto g.code g.code_hash ≡ true)
          × (g.code_fp ≡ code_fingerprint crypto g.code)
    generated_verifies db s g h =
        let (k, below, made, fp, hash, unused, fps, hs) =
          generate_unique_code-ok crypto r s draws.code (some (hash_exists db))
            (some (fp_exists db)) none g h in
        (rw hash (verify-hash crypto (draws.code.salt k) g.code hex (salts k)), fp)

  module _ (db : Db) (req : CompleteRequest) (c : DispenseCode) (a : Allocation) (l : Leftover)
      (unique : violates_unique db l.code l.allocation ≡ false) where
    -- Its fingerprint and its allocation's id select the new rows alone.
    new_code_row : codes_with_fp l.code.code_fp (settled_db now db req c a (some l)) ≡ l.code ∷ []
    unfolding settled_db
    new_code_row =
        let none_before =
          keep_if_unmatched (λ (d : DispenseCode). text_eq d.code_fp l.code.code_fp) db.codes
            (any_weaken (λ (d : DispenseCode). text_eq d.code_fp l.code.code_fp)
              (λ d.
                d.id == l.code.id
                || text_eq d.code_fp l.code.code_fp
                || text_eq d.code_hash l.code.code_hash)
              db.codes (λ d t. ground (arith, t))
              (unfold violates_unique in ground (arith, unique))) in
        rw
          (
            text_eq_refl l.code.code_fp,
            keep_if-update_code l.code.code_fp c.id (settled_code now c (round3 req.actual_liters))
                db.codes (unfold settled_code in λ d. refl),
            none_before,
          )
          (unfold update_code in refl)

    new_allocation_row :
        allocations_with_id l.allocation.id (settled_db now db req c a (some l)) ≡ l.allocation ∷ []
    unfolding settled_db
    new_allocation_row =
        let none_before =
          keep_if_unmatched (λ (b : Allocation). b.id == l.allocation.id) db.allocations
            (unfold violates_unique in ground (arith, unique)) in
        rw
          (
            keep_if-update_allocation l.allocation.id a.id
                (settled_allocation a (round3 req.actual_liters)) db.allocations
                (unfold settled_allocation in λ d. refl),
            none_before,
          )
          (unfold update_allocation in ground arith)

  -- The allocation of a leftover is new, so it is not the settled one.
  fresh_allocation :
      (db : Db) (l : Leftover)
      → violates_unique db l.code l.allocation ≡ false
      → allocations_with_id l.allocation.id db ≡ []
  fresh_allocation db l unique =
      keep_if_unmatched (λ (b : Allocation). b.id == l.allocation.id) db.allocations
        (unfold violates_unique in ground (arith, unique))

  other_id :
      (db : Db) (c : DispenseCode) (a : Allocation) (l : Leftover)
      → violates_unique db l.code l.allocation ≡ false
      → {code : Text} → IsFound crypto code db c a
      → l.allocation.id ≢ a.id
  other_id db c a l unique found e =
      let none_there =
        subst (λ (i : ℕ). allocations_with_id i db ≡ []) (e ∙ found.same_id)
          (fresh_allocation db l unique) in
      cc (none_there, found.allocation_row)

  -- The lookup of a stored leftover code, once it verifies.
  lookup_code-leftover :
      (db : Db) (req : CompleteRequest) (c : DispenseCode) (a : Allocation) (l : Leftover)
      → violates_unique db l.code l.allocation ≡ false
      → l.code.code_fp ≡ code_fingerprint crypto l.generated.code
      → l.code.allocation_id ≡ l.allocation.id
      → verify_code crypto l.generated.code l.code.code_hash ≡ true
      → lookup_code crypto l.generated.code (settled_db now db req c a (some l))
        ≡ ok (some (l.code, l.allocation))
  unfolding lookup_code verified_row
  lookup_code-leftover db req c a l unique fp own good =
      let owned =
        subst
          (λ (i : ℕ).
            allocations_with_id i (settled_db now db req c a (some l)) ≡ l.allocation ∷ [])
          (sym own) (new_allocation_row db req c a l unique) in
      rw (← fp, new_code_row db req c a l unique, good, owned)

  abbrev leftover_of : ℕ → Allocation → Generated → Leftover
  leftover_of actual a g =
      let alloc = leftover_allocation draws.allocation_id a (a.remaining_liters - actual) in
      record {
        allocation = alloc;
        code = leftover_code now draws.code_id alloc.id g (a.remaining_liters - actual);
        generated = g;
      }

  -- What a partial dispense that succeeds has done.
  partial_run :
      (req : CompleteRequest) (w : World r) (c : DispenseCode) (a : Allocation)
      (x : CompleteResponse)
      → r.sismember consumed_set (code_fingerprint crypto req.code) w.store ≡ false
      → lookup_code crypto req.code w.db ≡ ok (some (c, a))
      → leaves_partial a (round3 req.actual_liters) ≡ true
      → (complete_locked crypto r now draws req w).0 ≡ ok x
      → (g : Generated) × (generate_unique_code crypto r w.store draws.code
            (some (hash_exists w.db))
            (some (fp_exists w.db))
            none
          ≡ ok g)
        × let l = leftover_of (round3 req.actual_liters) a g in
          (violates_unique w.db l.code l.allocation ≡ false)
          × (x ≡ settled_response w.db req c a (some l))
          × ((complete_locked crypto r now draws req w).1.db ≡ settled_db now w.db req c a (some l))
  unfolding complete_locked complete_row settle make_leftover
  partial_run req w c a x unused row part h =
      let left = a.remaining_liters - round3 req.actual_liters in
      let alloc = leftover_allocation draws.allocation_id a left in
      elim (Result-cases (
        generate_unique_code crypto r w.store draws.code (some (hash_exists w.db))
          (some (fp_exists w.db)) none)) [
            | inr (e, q) ↦ absurd (ground arith)
            | inl (g, q) ↦ elim (Result-cases (flushed now draws w.db alloc left g)) [
              | inr (e, f) ↦ absurd (ground arith)
              | inl (l, f) ↦
                  let (shape, unique) = flushed-some w.db alloc left g l f in
                  let stored = f ∙ ap ok shape in
                  (
                    g,
                    q,
                    (
                      unique,
                      ground (
                        arith,
                        respond-settled w.db req c a
                            (some (leftover_of (round3 req.actual_liters) a g)),
                        stored,
                      ),
                      rw (unused, row, part, q, stored),
                    ),
                  )
            ]
          ]

  abbrev pub offered : CompleteResponse → Option Text
  offered x = elim x.outcome [ none ↦ none | some o ↦ o.new_code ]

  -- A partial dispense of an unconsumed code that succeeds gives out a code, when no salt holds a `$`.
  -- The next lookup of that code finds it active, for exactly the litres that the dispense left, on an
  -- allocation that the table did not have before and that belongs to the same employee.
  pub complete_locked_leftover :
      (req : CompleteRequest) (w : World r) (c : DispenseCode) (a : Allocation)
      (x : CompleteResponse)
      → HexDigests crypto
      → ((i : ℕ) → All (λ y. y ≢ b'$') (draws.code.salt i))
      → r.sismember consumed_set (code_fingerprint crypto req.code) w.store ≡ false
      → lookup_code crypto req.code w.db ≡ ok (some (c, a))
      → leaves_partial a (round3 req.actual_liters) ≡ true
      → (complete_locked crypto r now draws req w).0 ≡ ok x
      → (code : Text) × (offered x ≡ some code)
        × (d : DispenseCode) × (b : Allocation) × (lookup_code crypto code
              (complete_locked crypto r now draws req w).1.db
            ≡ ok (some (d, b)))
        × (d.status ≡ CodeStatus.active)
        × (d.attempt_count ≡ 0)
        × (round3 req.actual_liters + d.authorized_liters ≡ a.remaining_liters)
        × (b.remaining_liters ≡ d.authorized_liters)
        × (b.employee_id ≡ a.employee_id)
        × (allocations_with_id b.id w.db ≡ [])
        × (b.id ≢ a.id)
  complete_locked_leftover req w c a x hex salts unused row part h =
      let (g, made, facts) = partial_run req w c a x unused row part h in
      let (unique, answer, after) = facts in
      let l = leftover_of (round3 req.actual_liters) a g in
      let (good, fp) = generated_verifies hex salts w.db w.store g made in
      (
        g.code,
        rw answer (unfold settled_response in refl),
        l.code,
        l.allocation,
        rw after (
            lookup_code-leftover w.db req c a l unique (unfold leftover_code in fp)
              (unfold leftover_code in refl) (unfold leftover_code in good)),
        unfold leftover_code in refl,
        unfold leftover_code in refl,
        unfold leftover_code in ground arith,
        unfold leftover_code leftover_allocation in refl,
        unfold leftover_allocation in refl,
        fresh_allocation w.db l unique,
        λ e. other_id w.db c a l unique (lookup_code-some crypto req.code w.db c a row) e,
      )
