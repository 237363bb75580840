-- ===== src/Dispensing/Soundness.antt =====
-- The invariant of the tables, and that a settlement keeps it.
pub mod Requests
use mathlib.Core.Path.{subst}
use fuel_monitoring.Prelude.{
  sym, ℕ, ◌+◌, ◌-◌, ◌≤◌, ◌≡◌, refl, ◌≢◌, Bool, true, false, ◌||◌, Option, none, some, List, [], ◌∷◌,
  ◌++◌, Text, text_eq, eq→text_eq, arith, All, any, Bool-cases, inl, inr, ◌==◌, keep_if,
}
use fuel_monitoring.Security.{Crypto}
use fuel_monitoring.Dispensing.Models.{
  Allocation, DispenseCode, DispenseTransaction, Db, CompleteRequest, round3, update_code,
  update_allocation,
}
use fuel_monitoring.Dispensing.Rows.{
  total_dispensed, total_logged, total_dispensed-update, All-update_code, All-keep_if,
  All-update_allocation,
}
use fuel_monitoring.Dispensing.Inversion.{IsFound}
use fuel_monitoring.Dispensing.Engine.Settlement.{
  settled_allocation, settled_code, settled_db, new_txn, Leftover, violates_unique, new_codes,
  new_allocations, leftover_allocation,
}

-- What remains is what was allocated, less what was dispensed, and never below zero.
abbrev pub HasQuota : Allocation → Type 0
HasQuota a = a.remaining_liters ≡ a.allocated_liters - a.dispensed_liters

abbrev pub IsBounded : DispenseCode → Type 0
IsBounded c = c.attempt_count ≤ c.max_attempts

-- No other code has this id, fingerprint or hash.
abbrev pub DiffersFrom : ℕ → Text → Text → DispenseCode → Type 0
DiffersFrom id fp hash c = (c.id ≢ id) × (c.code_fp ≢ fp) × (c.code_hash ≢ hash)

abbrev pub AreUnique : List DispenseCode → Type 0
AreUnique [] = Unit
AreUnique (c ∷ cs) = All (DiffersFrom c.id c.code_fp c.code_hash) cs × AreUnique cs

pub record IsSound (db : Db) : Type 0 where
  -- the allocations and the transactions agree on the litres that were dispensed
  pub balanced : total_dispensed db.allocations ≡ total_logged db.txns
  pub quotas : All HasQuota db.allocations
  pub attempts : All IsBounded db.codes
  pub unique : AreUnique db.codes

-- An update of other columns keeps the codes unique.
pub update_code-AreUnique :
    (id : ℕ) (set : DispenseCode → DispenseCode) (cs : List DispenseCode)
    → ((c : DispenseCode)
        → ((set c).id ≡ c.id) × ((set c).code_fp ≡ c.code_fp) × ((set c).code_hash ≡ c.code_hash))
    → AreUnique cs
    → AreUnique (update_code id set cs)
unfolding update_code
update_code-AreUnique id set [] same h = tt
update_code-AreUnique id set (c ∷ cs) same h =
    let others =
      All-update_code (DiffersFrom c.id c.code_fp c.code_hash) id set cs
        (λ d k. rw ((same d).0, (same d).1, (same d).2) k) h.0 in
    elim (Bool-cases (c.id == id)) [
      | inl t ↦
          rw t (
            rw ((same c).0, (same c).1, (same c).2) others,
            update_code-AreUnique id set cs same h.1,
          )
      | inr f ↦ rw f (others, update_code-AreUnique id set cs same h.1)
    ]

-- A code that the unique columns admit differs from all that are there.
pub DiffersFrom-All :
    (c : DispenseCode) (cs : List DispenseCode)
    → any (λ d. d.id == c.id || text_eq d.code_fp c.code_fp || text_eq d.code_hash c.code_hash) cs
      ≡ false
    → All (DiffersFrom c.id c.code_fp c.code_hash) cs
DiffersFrom-All c [] h = tt
DiffersFrom-All c (d ∷ cs) h = (
  (
    (λ e. ground (arith, e)),
    (λ e. ground (arith, eq→text_eq d.code_fp c.code_fp e)),
    (λ e. ground (arith, eq→text_eq d.code_hash c.code_hash e)),
  ),
  DiffersFrom-All c cs (ground arith),
)

abbrev pub FreshLeftover : Db → Option Leftover → Type 0
FreshLeftover db none = Unit
FreshLeftover db (some l) =
    (violates_unique db l.code l.allocation ≡ false)
    × HasQuota l.allocation
    × (l.allocation.dispensed_liters ≡ 0)
    × IsBounded l.code

module _ (crypto : Crypto) (now : ℕ) (db : Db) (req : CompleteRequest) (c : DispenseCode)
    (a : Allocation) (found : IsFound crypto req.code db c a) (sound : IsSound db) where
  abbrev actual : ℕ
  actual = round3 req.actual_liters

  one_allocation : keep_if (λ (b : Allocation). b.id == a.id) db.allocations ≡ a ∷ []
  one_allocation =
      subst (λ (i : ℕ). keep_if (λ (b : Allocation). b.id == i) db.allocations ≡ a ∷ [])
        (sym found.same_id) found.allocation_row

  -- The rows that stay, after their updates.
  kept_allocations :
      (total_dispensed (update_allocation a.id (settled_allocation a actual) db.allocations)
        ≡ total_dispensed db.allocations + actual)
      × All HasQuota (update_allocation a.id (settled_allocation a actual) db.allocations)
  unfolding settled_allocation
  kept_allocations = (
    total_dispensed-update a.id actual (settled_allocation a actual) db.allocations a one_allocation
        refl,
    All-update_allocation HasQuota a.id (settled_allocation a actual) db.allocations a
        one_allocation
        (omega (
          arith,
          All-keep_if HasQuota (λ (b : Allocation). b.id == a.id) db.allocations a one_allocation
              sound.quotas,
        ))
        sound.quotas,
  )

  kept_codes :
      All IsBounded (update_code c.id (settled_code now c actual) db.codes)
      × AreUnique (update_code c.id (settled_code now c actual) db.codes)
  unfolding settled_code
  kept_codes = (
    All-update_code IsBounded c.id (settled_code now c actual) db.codes (λ d h. h) sound.attempts,
    update_code-AreUnique c.id (settled_code now c actual) db.codes (λ d. (refl, refl, refl))
        sound.unique,
  )

  settled_db-IsSound :
      (l : Option Leftover) → FreshLeftover db l → IsSound (settled_db now db req c a l)
  unfolding settled_db new_txn total_dispensed total_logged settled_code
  settled_db-IsSound none f = record {
    balanced = omega (arith, kept_allocations.0, sound.balanced);
    quotas = kept_allocations.1;
    attempts = kept_codes.0;
    unique = kept_codes.1;
  }
  settled_db-IsSound (some l) f = record {
    balanced = omega (arith, kept_allocations.0, sound.balanced, f.2);
    quotas = (f.1, kept_allocations.1);
    attempts = (f.3, kept_codes.0);
    unique = (
      All-update_code (DiffersFrom l.code.id l.code.code_fp l.code.code_hash) c.id
          (settled_code now c actual) db.codes (λ d h. h)
          (DiffersFrom-All l.code db.codes (unfold violates_unique in ground (arith, f.0))),
      kept_codes.1,
    );
  }
