-- ===== src/Dispensing/Settled.antt =====
-- The rows that a code's lookup finds after its settlement.
use mathlib.Core.Path.{subst}
use fuel_monitoring.Prelude.{
  ℕ, ◌≡◌, refl, ◌∙◌, Bool-cases, inl, inr, false, Option, none, some, [], ◌∷◌, Text, text_eq,
  text_eq→eq, arith, keep_if, ◌==◌,
}
use fuel_monitoring.Security.{Crypto, code_fingerprint}
use fuel_monitoring.Dispensing.Models.{
  Allocation, DispenseCode, Db, CompleteRequest, ok, round3, codes_with_fp, allocations_with_id,
  update_code, update_allocation,
}
use fuel_monitoring.Dispensing.Rows.{
  All-keep_if, keep_if_unmatched, keep_if-update_code, keep_if-update_allocation,
}
use fuel_monitoring.Dispensing.Inversion.{IsFound}
use fuel_monitoring.Dispensing.Soundness.{DiffersFrom, FreshLeftover, DiffersFrom-All}
use fuel_monitoring.Dispensing.Engine.Lookup.{lookup_code, verified_row, find_existing_txn}
use fuel_monitoring.Dispensing.Engine.Settlement.{
  settled_allocation, settled_code, settled_db, new_txn, Leftover, violates_unique,
}

module _ (crypto : Crypto) (now : ℕ) (db : Db) (req : CompleteRequest) (c : DispenseCode)
    (a : Allocation) (found : IsFound crypto req.code db c a) where
  abbrev actual : ℕ
  actual = round3 req.actual_liters

  abbrev fp : Text
  fp = code_fingerprint crypto req.code

  -- the update of the one row that was found
  code_row_updated :
      keep_if
        (λ (d : DispenseCode). text_eq d.code_fp fp)
        (update_code c.id (settled_code now c actual) db.codes)
      ≡ settled_code now c actual c ∷ []
  unfolding settled_code
  code_row_updated =
      keep_if-update_code fp c.id (settled_code now c actual) db.codes (λ d. refl)
      ∙ (rw found.code_row (unfold update_code in ground arith))

  allocation_row_updated :
      keep_if
        (λ (b : Allocation). b.id == c.allocation_id)
        (update_allocation a.id (settled_allocation a actual) db.allocations)
      ≡ settled_allocation a actual a ∷ []
  unfolding settled_allocation
  allocation_row_updated =
      keep_if-update_allocation c.allocation_id a.id (settled_allocation a actual) db.allocations
        (λ b. refl)
      ∙ (rw found.allocation_row (unfold update_allocation in ground arith))

  -- The leftover's rows have another fingerprint and another id.
  other_fp : (l : Leftover) → FreshLeftover db (some l) → text_eq l.code.code_fp fp ≡ false
  other_fp l fresh =
      let apart =
        All-keep_if (DiffersFrom l.code.id l.code.code_fp l.code.code_hash)
          (λ (d : DispenseCode). text_eq d.code_fp fp) db.codes c found.code_row
          (DiffersFrom-All l.code db.codes (unfold violates_unique in ground (arith, fresh.0))) in
      ground (arith, text_eq→eq l.code.code_fp fp, apart.1, found.same_fp)

  other_allocation :
      (l : Leftover) → FreshLeftover db (some l) → (l.allocation.id == c.allocation_id) ≡ false
  other_allocation l fresh =
      let absent =
        keep_if_unmatched (λ (b : Allocation). b.id == l.allocation.id) db.allocations
          (unfold violates_unique in ground (arith, fresh.0)) in
      elim (Bool-cases (l.allocation.id == c.allocation_id)) [
        | inr f ↦ f
        | inl t ↦
            let same : l.allocation.id ≡ c.allocation_id = ground (arith, t) in
            absurd (
              cc (
                subst (λ (i : ℕ). keep_if (λ (b : Allocation). b.id == i) db.allocations ≡ []) same
                    absent,
                found.allocation_row,
              ))
      ]

  pub settled_db-code_row :
      (l : Option Leftover)
      → FreshLeftover db l
      → codes_with_fp fp (settled_db now db req c a l) ≡ settled_code now c actual c ∷ []
  unfolding settled_db
  settled_db-code_row none fresh = code_row_updated
  settled_db-code_row (some l) fresh = rw (other_fp l fresh) code_row_updated

  pub settled_db-allocation_row :
      (l : Option Leftover)
      → FreshLeftover db l
      → allocations_with_id c.allocation_id (settled_db now db req c a l)
        ≡ settled_allocation a actual a ∷ []
  unfolding settled_db
  settled_db-allocation_row none fresh = allocation_row_updated
  settled_db-allocation_row (some l) fresh = rw (other_allocation l fresh) allocation_row_updated

  -- The transaction of a settlement is the one that a replay of its code finds.
  pub find_existing_txn-settled :
      (l : Option Leftover)
      → FreshLeftover db l
      → find_existing_txn crypto req.code (settled_db now db req c a l)
        ≡ ok (some (new_txn db req c a))
  unfolding find_existing_txn lookup_code verified_row settled_code
  find_existing_txn-settled l fresh =
      rw (settled_db-code_row l fresh, found.verified, settled_db-allocation_row l fresh)
        (unfold settled_db new_txn in ground arith)
