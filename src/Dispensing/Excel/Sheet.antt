-- ===== src/Dispensing/Excel/Sheet.antt =====
-- Which rows of the sheet the codes of an upload are for.
use fuel_monitoring.Prelude.{
  ℕ, ◌<◌, ◌≡◌, refl, inl, inr, Option, none, some, List, [], ◌∷◌, Text, All, arith, Bool-cases,
}
use fuel_monitoring.Redis.{Redis}
use fuel_monitoring.Security.{Crypto}
use fuel_monitoring.Dispensing.Keys.{Key, Value}
use fuel_monitoring.Dispensing.Models.{ok, Result-cases}
use fuel_monitoring.Dispensing.Excel.{
  TextOps, Field, RowFields, Row, error, good, parse_row, get_cell, coerce_liters, checked_row,
  is_employee_id, is_phone,
}
use fuel_monitoring.Dispensing.Excel.Batch.{
  Tables, RowDraws, Prepared, rejected, issued, PendingDispatch, row_code, prepared_row, with_hash,
  with_fp, issue_codes, pending, pending_of, prepared, parse_rows, load_existing_fingerprints,
}

-- Some element has a property.
pub data Some {A : Type 0} (P : A → Type 0) : List A → Type 0 where
  here : {x : A} {l : List A} → P x → Some P (x ∷ l)
  there : {x : A} {l : List A} → Some P l → Some P (x ∷ l)

module _ (ops : TextOps) (headers : List (Field × ℕ)) where
  -- A row of the sheet whose cells pass the checks with these fields.
  abbrev GivesFields : RowFields → ℕ × List Text → Type 0
  GivesFields f (n, cells) = parse_row ops headers cells ≡ ok (good f)

  abbrev IsRowOf : List (ℕ × List Text) → ℕ × Row → Type 0
  IsRowOf rows (n, error id e) = Unit
  IsRowOf rows (n, good f) = Some (GivesFields f) rows

  IsRowOf-there :
      (row : ℕ × List Text) (rows : List (ℕ × List Text)) (parsed : List (ℕ × Row))
      → All (IsRowOf rows) parsed
      → All (IsRowOf (row ∷ rows)) parsed
  IsRowOf-there row rows [] h = tt
  IsRowOf-there row rows ((n, error id e) ∷ parsed) h = (tt, IsRowOf-there row rows parsed h.1)
  IsRowOf-there row rows ((n, good f) ∷ parsed) h = (there h.0, IsRowOf-there row rows parsed h.1)

  parse_rows-IsRowOf :
      (rows : List (ℕ × List Text)) (parsed : List (ℕ × Row))
      → parse_rows ops headers rows ≡ ok parsed
      → All (IsRowOf rows) parsed
  unfolding parse_rows
  parse_rows-IsRowOf [] parsed h = let e : [] ≡ parsed = ground arith in rw (← e) tt
  parse_rows-IsRowOf ((n, cells) ∷ rows) parsed h =
      elim (Result-cases (parse_row ops headers cells)) [
        | inr (e, q) ↦ absurd (ground arith)
        | inl (row, q) ↦ elim (Result-cases (parse_rows ops headers rows)) [
          | inr (e, k) ↦ absurd (ground arith)
          | inl (more, k) ↦
              let same : (n, row) ∷ more ≡ parsed = ground arith in
              rw (← same)
                (first row q, IsRowOf-there (n, cells) rows more (parse_rows-IsRowOf rows more k))
        ]
      ]
    where
      first :
          (row : Row) → parse_row ops headers cells ≡ ok row → IsRowOf ((n, cells) ∷ rows) (n, row)
      first (error id e) q = tt
      first (good f) q = here q

  -- A dispatch for a row of the sheet: of the employee in its cell, for the litres in its cell, which
  -- are more than none, by the uploading company.
  abbrev pub IsOfCells : ℕ → PendingDispatch → ℕ × List Text → Type 0
  IsOfCells company p (n, cells) =
      (ops.strip (get_cell headers cells Field.employee_id) ≡ p.employee_id)
      × (coerce_liters ops (get_cell headers cells Field.allocated_liters) ≡ some p.liters)
      × (0 < p.liters)
      × (p.company_id ≡ company)

  -- What a row that passed holds.
  checked_row-keeps :
      (i n p v : Text) (liters : Option ℕ) (f : RowFields)
      → checked_row ops i n p v liters ≡ ok (good f)
      → (i ≡ f.employee_id) × (liters ≡ some f.allocated_liters) × (0 < f.allocated_liters)
  unfolding checked_row
  checked_row-keeps [] n p v liters f h = absurd (cc)
  checked_row-keeps (i ∷ is) [] p v liters f h = elim (Bool-cases (is_employee_id (i ∷ is))) [
    | inr bad ↦ absurd (ground arith)
    | inl shape ↦ absurd (ground arith)
  ]
  checked_row-keeps (i ∷ is) (n ∷ ns) p v none f h = elim (Bool-cases (is_employee_id (i ∷ is))) [
    | inr bad ↦ absurd (ground arith)
    | inl shape ↦ absurd (ground arith)
  ]
  checked_row-keeps (i ∷ is) (n ∷ ns) p v (some l) f h =
      elim (Bool-cases (is_employee_id (i ∷ is))) [
        | inr bad ↦ absurd (ground arith)
        | inl shape ↦ elim (Bool-cases (is_phone ops p)) [
          | inr bad ↦ absurd (ground arith)
          | inl calls ↦ (ground arith, ground arith, ground arith)
        ]
      ]

  parse_row-cells :
      (n : ℕ) (cells : List Text) (f : RowFields)
      → GivesFields f (n, cells)
      → (ops.strip (get_cell headers cells Field.employee_id) ≡ f.employee_id)
        × (coerce_liters ops (get_cell headers cells Field.allocated_liters)
            ≡ some f.allocated_liters)
        × (0 < f.allocated_liters)
  unfolding parse_row
  parse_row-cells n cells f h =
      let cell = λ (g : Field). get_cell headers cells g in
      checked_row-keeps (ops.strip (cell Field.employee_id)) (ops.strip (cell Field.name))
        (ops.strip (cell Field.phone)) (ops.strip (cell Field.invoice_number))
        (coerce_liters ops (cell Field.allocated_liters)) f h

  Some-weaken :
      {A : Type 0} (P Q : A → Type 0) → ((x : A) → P x → Q x) → (l : List A) → Some P l → Some Q l
  Some-weaken P Q implies [] h = elim h [ ]
  Some-weaken P Q implies (x ∷ l) (here p) = here (implies x p)
  Some-weaken P Q implies (x ∷ l) (there h) = there (Some-weaken P Q implies l h)

module _ (ops : TextOps) (headers : List (Field × ℕ)) (rows : List (ℕ × List Text)) (company : ℕ)
    (crypto : Crypto) (r : Redis Key Value) (draws : ℕ → RowDraws) where
  -- The fields behind a code are those of a row.
  IsPreparedOf : Prepared → Type 0
  IsPreparedOf (rejected e) = Unit
  IsPreparedOf (issued n f g) = Some (GivesFields ops headers f) rows

  issue_codes-IsPreparedOf :
      (s : r.Store) (parsed : List (ℕ × Row)) (hashes fps : List Text)
      → All (IsRowOf ops headers rows) parsed
      → All IsPreparedOf (issue_codes crypto r s draws parsed hashes fps)
  unfolding issue_codes prepared_row IsPreparedOf
  issue_codes-IsPreparedOf s [] hashes fps h = tt
  issue_codes-IsPreparedOf s ((n, error id e) ∷ parsed) hashes fps h =
      (tt, issue_codes-IsPreparedOf s parsed hashes fps h.1)
  issue_codes-IsPreparedOf s ((n, good f) ∷ parsed) hashes fps h =
      let made = row_code crypto r s draws n hashes fps in
      (
        elim (Result-cases made) [ inr (e, q) ↦ rw q tt | inl (g, q) ↦ rw q h.0 ],
        issue_codes-IsPreparedOf s parsed (with_hash made hashes) (with_fp made fps) h.1,
      )

  pending-IsOfCells :
      (now batch : ℕ) (ready : List Prepared)
      → All IsPreparedOf ready
      → All
          (λ (p : PendingDispatch). Some (IsOfCells ops headers company p) rows)
          (pending now batch company draws ready)
  unfolding pending IsPreparedOf
  pending-IsOfCells now batch [] h = tt
  pending-IsOfCells now batch (rejected e ∷ ready) h = pending-IsOfCells now batch ready h.1
  pending-IsOfCells now batch (issued n f g ∷ ready) h = (
    Some-weaken ops headers (GivesFields ops headers f)
        (IsOfCells ops headers company (pending_of (draws n).allocation company f g))
        (λ row gives.
          let (m, cells) = row in
          let (id, liters, positive) = parse_row-cells ops headers m cells f gives in
          (id, liters, positive, refl))
        rows h.0,
    pending-IsOfCells now batch ready h.1,
  )

  -- The dispatches of the rows of a sheet, when all of them were parsed.
  pub prepared-IsOfCells :
      (now batch : ℕ) (parsed : List (ℕ × Row)) (s : r.Store) (t : Tables)
      → parse_rows ops headers rows ≡ ok parsed
      → All
          (λ (p : PendingDispatch). Some (IsOfCells ops headers company p) rows)
          (pending now batch company draws (prepared crypto r draws parsed s t.db))
  unfolding prepared
  prepared-IsOfCells now batch parsed s t h =
      pending-IsOfCells now batch (prepared crypto r draws parsed s t.db) (
        issue_codes-IsPreparedOf s parsed [] (load_existing_fingerprints t.db)
          (parse_rows-IsRowOf ops headers rows parsed h))
