-- ===== src/Dispensing/Excel/Valid.antt =====
-- What the checks of a row let through.
use fuel_monitoring.Prelude.{
  ℕ, ◌≡◌, ◌≢◌, ◌≤◌, ◌<◌, ◌↔◌, inl, inr, true, not, Option, none, some, List, [], ◌∷◌, refl, Text,
  keep_if, arith, Bool-cases, Option-cases, ◌==◌,
}
use fuel_monitoring.Dispensing.Models.{round3, ok}
use fuel_monitoring.Dispensing.Excel.{
  TextOps, Field, is_employee_id, is_phone, RowFields, good, coerce_liters, checked_row, get_cell,
  parse_row,
}

-- The fields of a row hold what the checks are for.
pub record IsValid (ops : TextOps) (f : RowFields) : Type 0 where
  pub id_shape : is_employee_id f.employee_id ≡ true
  pub id_given : f.employee_id ≢ []
  pub named : f.name ≢ []
  pub phone_shape : is_phone ops f.phone ≡ true
  pub positive : 0 < f.allocated_liters
  -- ten thousand litres, in millilitres
  pub bounded : f.allocated_liters ≤ 10000000

module _ (ops : TextOps) where
  -- The litres of a cell, before they are rounded.
  abbrev pub liters_read : Text → Option ℕ
  liters_read value = ops.float_of (ops.strip (keep_if (λ c. not (c == b',')) value))

  coerce_liters_bounded : (value : Text) (l : ℕ) → coerce_liters ops value ≡ some l → l ≤ 10000000
  unfolding coerce_liters round3
  coerce_liters_bounded value l h = elim (Option-cases (liters_read value)) [
    | inl e ↦ absurd (ground arith)
    | inr (u, e) ↦ ground arith
  ]

  checked_row-IsValid :
      (i n p v : Text) (liters : Option ℕ) (f : RowFields)
      → ((l : ℕ) → liters ≡ some l → l ≤ 10000000)
      → checked_row ops i n p v liters ≡ ok (good f)
      → IsValid ops f
  unfolding checked_row
  checked_row-IsValid [] n p v liters f bound h = absurd (cc)
  checked_row-IsValid (i ∷ is) [] p v liters f bound h =
      elim (Bool-cases (is_employee_id (i ∷ is))) [
        | inr bad ↦ absurd (ground arith)
        | inl shape ↦ absurd (ground arith)
      ]
  checked_row-IsValid (i ∷ is) (n ∷ ns) p v none f bound h =
      elim (Bool-cases (is_employee_id (i ∷ is))) [
        | inr bad ↦ absurd (ground arith)
        | inl shape ↦ absurd (ground arith)
      ]
  checked_row-IsValid (i ∷ is) (n ∷ ns) p v (some l) f bound h =
      elim (Bool-cases (is_employee_id (i ∷ is))) [
        | inr bad ↦ absurd (ground arith)
        | inl shape ↦ elim (Bool-cases (is_phone ops p)) [
          | inr bad ↦ absurd (ground arith)
          | inl calls ↦
              let limit = bound l refl in
              record {
                id_shape = ground arith;
                id_given = λ e. ground arith;
                named = λ e. ground arith;
                phone_shape = ground arith;
                positive = ground arith;
                bounded = ground arith;
              }
        ]
      ]

  -- A row that passes has a well-formed employee id, a name, a phone number and litres above zero, at
  -- most ten thousand.
  pub parse_row-IsValid :
      (headers : List (Field × ℕ)) (cells : List Text) (f : RowFields)
      → parse_row ops headers cells ≡ ok (good f)
      → IsValid ops f
  unfolding parse_row
  parse_row-IsValid headers cells f h =
      let cell = λ (g : Field). get_cell headers cells g in
      checked_row-IsValid (ops.strip (cell Field.employee_id)) (ops.strip (cell Field.name))
        (ops.strip (cell Field.phone)) (ops.strip (cell Field.invoice_number))
        (coerce_liters ops (cell Field.allocated_liters)) f
        (coerce_liters_bounded (cell Field.allocated_liters)) h

  -- Litres pass the check, become zero when they are rounded, and then are refused by the schema of a
  -- row, which fails the upload, exactly when at most half a millilitre was asked for.
  pub coerce_liters_zero :
      (value : Text) (u : ℕ)
      → liters_read value ≡ some u
      → (coerce_liters ops value ≡ some 0) ↔ ((0 < u) × (u ≤ 500))
  unfolding coerce_liters round3
  coerce_liters_zero value u e = ((λ h. ground arith), (λ h. ground arith))
