-- ===== src/Dispensing/Inversion.antt =====
-- What a successful lookup, a leftover, and a completed call tell.
use fuel_monitoring.Prelude.{
  Option, ◌≡◌, inl, inr, true, none, some, [], ◌∷◌, Text, text_eq, text_eq→eq, arith, Bool-cases,
  ◌==◌, ==_iff,
}
use fuel_monitoring.Security.{Crypto, code_fingerprint, verify_code}
use fuel_monitoring.Dispensing.Models.{
  Allocation, DispenseCode, Db, CompleteRequest, ok, Result-cases, scalar_one_or_none,
  codes_with_fp, allocations_with_id,
}
use fuel_monitoring.Dispensing.Rows.{keep_if-test, scalar-some}
use fuel_monitoring.Dispensing.Engine.Settlement.{Leftover, settled_response, respond}
use fuel_monitoring.Dispensing.Engine.Lookup.{lookup_code, verified_row}

-- The rows that a successful lookup has found.
pub record IsFound (crypto : Crypto) (code : Text) (db : Db) (c : DispenseCode) (a : Allocation)
    : Type 0 where
  pub code_row : codes_with_fp (code_fingerprint crypto code) db ≡ c ∷ []
  pub verified : verify_code crypto code c.code_hash ≡ true
  pub allocation_row : allocations_with_id c.allocation_id db ≡ a ∷ []
  pub same_fp : c.code_fp ≡ code_fingerprint crypto code
  pub same_id : a.id ≡ c.allocation_id

module _ (crypto : Crypto) (code : Text) (db : Db) (c : DispenseCode) (a : Allocation) where
  verified_row-some :
      (d : DispenseCode)
      → verified_row crypto code db (some d) ≡ ok (some (c, a))
      → (d ≡ c)
        × (verify_code crypto code c.code_hash ≡ true)
        × (scalar_one_or_none (allocations_with_id c.allocation_id db) ≡ ok (some a))
  unfolding verified_row
  verified_row-some d h = elim (Bool-cases (verify_code crypto code d.code_hash)) [
    | inr f ↦ absurd (ground arith)
    | inl t ↦ elim (Result-cases (scalar_one_or_none (allocations_with_id d.allocation_id db))) [
      | inr (e, q) ↦ absurd (ground arith)
      | inl (none, q) ↦ absurd (ground arith)
      | inl (some b, q) ↦
          let same : d ≡ c = ground arith in
          let row : b ≡ a = ground arith in (same, rw same at t, rw row at (rw same at q))
    ]
  ]

  pub lookup_code-some : lookup_code crypto code db ≡ ok (some (c, a)) → IsFound crypto code db c a
  unfolding lookup_code
  lookup_code-some h =
      elim (Result-cases (scalar_one_or_none (codes_with_fp (code_fingerprint crypto code) db))) [
        | inr (e, q) ↦ absurd (ground arith)
        | inl (none, q) ↦ absurd (unfold verified_row in ground arith)
        | inl (some d, q) ↦
            let (same, t, row) = verified_row-some d (ground arith) in
            let one =
              scalar-some (codes_with_fp (code_fingerprint crypto code) db) c (rw same at q) in
            let alloc = scalar-some (allocations_with_id c.allocation_id db) a row in
            record {
              code_row = one;
              verified = t;
              allocation_row = alloc;
              same_fp = text_eq→eq c.code_fp (code_fingerprint crypto code) (
                  keep_if-test (λ x. text_eq x.code_fp (code_fingerprint crypto code)) db.codes c
                    one);
              same_id =
                  (==_iff a.id c.allocation_id).0
                    (keep_if-test (λ x. x.id == c.allocation_id) db.allocations a alloc);
            }
      ]

-- The response of a settlement passes its schema.
pub respond-settled :
    (db : Db) (req : CompleteRequest) (c : DispenseCode) (a : Allocation) (l : Option Leftover)
    → respond (settled_response db req c a l) ≡ ok (settled_response db req c a l)
unfolding settled_response
respond-settled db req c a l = ground arith
