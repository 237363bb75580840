-- ===== src/Dispensing/Excel/Inserts.antt =====
-- What the inserts of one row of a sheet leave true of the tables.
use fuel_monitoring.Prelude.{
  ℕ, ◌≡◌, refl, sym, ◌∙◌, inl, inr, Bool, true, false, ◌||◌, some, List, [], ◌∷◌, Text, text_eq,
  text_eq_refl, text_eq→eq, eq→text_eq, any, keep_if, All, arith, Bool-cases, ◌==◌,
}
use mathlib.Core.Path.{subst}
use fuel_monitoring.Security.{Crypto, code_fingerprint, verify_code}
use fuel_monitoring.Dispensing.Models.{
  Allocation, DispenseCode, Db, ok, Result-cases, codes_with_fp, allocations_with_id,
}
use fuel_monitoring.Dispensing.Rows.{total_dispensed, All-keep_if, keep_if_unmatched, any_weaken}
use fuel_monitoring.Dispensing.Inversion.{IsFound}
use fuel_monitoring.Dispensing.Soundness.{HasQuota, IsBounded, IsSound, DiffersFrom-All}
use fuel_monitoring.Dispensing.Generator.{Generated}
use fuel_monitoring.Dispensing.Engine.Lookup.{lookup_code, verified_row}
use fuel_monitoring.Dispensing.Engine.Settlement.{violates_unique}
use fuel_monitoring.Dispensing.Excel.{RowFields}
use fuel_monitoring.Dispensing.Excel.Batch.{
  Tables, RowDraws, persist_row, new_allocation, new_code, add_rows, get_or_create_employee,
  Employee,
}

any-false-All :
    {A : Type 0} (p : A → Bool) (l : List A) → any p l ≡ false → All (λ x. p x ≡ false) l
any-false-All p [] h = tt
any-false-All p (x ∷ l) h = (ground arith, any-false-All p l (ground arith))

-- A row that a unique column admits is not one that a query has found.
admitted_apart :
    {A : Type 0} (p q : A → Bool) (l : List A) (x : A)
    → any p l ≡ false
    → keep_if q l ≡ x ∷ []
    → p x ≡ false
admitted_apart p q l x free one = All-keep_if (λ y. p y ≡ false) q l x one (any-false-All p l free)

abbrev pub inserted : Allocation → DispenseCode → Db → Db
inserted a c db = record db { allocations = a ∷ db.allocations; codes = c ∷ db.codes }

-- What a row that was persisted has inserted.
pub persist_row-ok :
    (now batch company : ℕ) (draws : ℕ → RowDraws) (n : ℕ) (f : RowFields) (g : Generated)
    (t t' : Tables)
    → persist_row now batch company draws n f g t ≡ ok t'
    → (e : Employee) × let a = new_allocation (draws n).allocation batch company e f in
        let c = new_code now (draws n).code (draws n).allocation f g in
        (violates_unique t.db c a ≡ false) × (t'.db ≡ inserted a c t.db)
unfolding persist_row add_rows
persist_row-ok now batch company draws n f g t t' h =
    elim (Result-cases (get_or_create_employee (draws n).employee company f t.employees)) [
      | inr (e, q) ↦ absurd (ground arith)
      | inl ((e, emps), q) ↦
          let a = new_allocation (draws n).allocation batch company e f in
          let c = new_code now (draws n).code (draws n).allocation f g in
          elim (Bool-cases (violates_unique t.db c a)) [
            | inl v ↦ absurd (ground arith)
            | inr v ↦ (e, (v, ground arith))
          ]
    ]

-- The test of the unique columns of a code.
abbrev pub clashes : DispenseCode → DispenseCode → Bool
clashes c d = d.id == c.id || text_eq d.code_fp c.code_fp || text_eq d.code_hash c.code_hash

module _ (db : Db) (a : Allocation) (c : DispenseCode) (free : violates_unique db c a ≡ false) where
  pub inserted-IsSound :
      a.dispensed_liters ≡ 0 → HasQuota a → IsBounded c → IsSound db → IsSound (inserted a c db)
  unfolding total_dispensed
  inserted-IsSound fresh quota bounded sound = record {
    balanced = omega (arith, fresh, sound.balanced);
    quotas = (quota, sound.quotas);
    attempts = (bounded, sound.attempts);
    unique =
        (DiffersFrom-All c db.codes (unfold violates_unique in ground (arith, free)), sound.unique);
  }

  -- What a code finds it still finds after the insert.
  pub inserted_keeps :
      (crypto : Crypto) (code : Text) (d : DispenseCode) (b : Allocation)
      → IsFound crypto code db d b
      → IsFound crypto code (inserted a c db) d b
  unfolding violates_unique
  inserted_keeps crypto code d b found =
      let other =
        admitted_apart (clashes c) (λ x. text_eq x.code_fp (code_fingerprint crypto code)) db.codes
          d (ground (arith, free)) found.code_row in
      let elsewhere =
        admitted_apart (λ (x : Allocation). x.id == a.id) (λ x. x.id == d.allocation_id)
          db.allocations b (ground (arith, free)) found.allocation_row in
      let apart : text_eq c.code_fp (code_fingerprint crypto code) ≡ false =
        elim (Bool-cases (text_eq c.code_fp (code_fingerprint crypto code))) [
          | inr f ↦ f
          | inl same ↦
              let e : d.code_fp ≡ c.code_fp =
                found.same_fp ∙ sym (text_eq→eq c.code_fp (code_fingerprint crypto code) same) in
              absurd (ground (arith, other, eq→text_eq d.code_fp c.code_fp e))
        ] in
      record {
        code_row = ground (arith, apart, found.code_row);
        verified = found.verified;
        allocation_row = ground (arith, elsewhere, found.allocation_row, found.same_id);
        same_fp = found.same_fp;
        same_id = found.same_id;
      }

  -- The new code finds the new rows.
  pub inserted_finds :
      (crypto : Crypto) (code : Text)
      → verify_code crypto code c.code_hash ≡ true
      → c.code_fp ≡ code_fingerprint crypto code
      → c.allocation_id ≡ a.id
      → IsFound crypto code (inserted a c db) c a
  unfolding violates_unique
  inserted_finds crypto code verified fp own =
      let alone =
        keep_if_unmatched (λ (d : DispenseCode). text_eq d.code_fp c.code_fp) db.codes
          (any_weaken (λ (d : DispenseCode). text_eq d.code_fp c.code_fp) (clashes c) db.codes
            (λ d t. ground (arith, t)) (ground (arith, free))) in
      let own_row =
        keep_if_unmatched (λ (b : Allocation). b.id == a.id) db.allocations
          (ground (arith, free)) in
      record {
        code_row =
            subst (λ (k : Text). codes_with_fp k (inserted a c db) ≡ c ∷ []) fp
              (ground (arith, text_eq_refl c.code_fp, alone));
        verified = verified;
        allocation_row =
            subst (λ (i : ℕ). allocations_with_id i (inserted a c db) ≡ a ∷ []) (sym own)
              (ground (arith, own_row));
        same_fp = fp;
        same_id = sym own;
      }

pub IsFound-lookup_code :
    (crypto : Crypto) (code : Text) (db : Db) (c : DispenseCode) (a : Allocation)
    → IsFound crypto code db c a
    → lookup_code crypto code db ≡ ok (some (c, a))
unfolding lookup_code verified_row
IsFound-lookup_code crypto code db c a found =
    rw (found.code_row, found.verified, found.allocation_row) refl
