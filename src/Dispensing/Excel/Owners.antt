-- ===== src/Dispensing/Excel/Owners.antt =====
-- Whose employees an upload names: `Employee.employee_id` is unique over all companies, while
-- `_get_or_create_employee` searches the uploading company alone.
use fuel_monitoring.Prelude.{
  ℕ, ◌≡◌, ◌≢◌, ◌⊎◌, refl, inl, inr, Bool, true, some, false, not, ◌&&◌, ◌||◌, List, [], ◌∷◌, Text,
  text_eq, text_eq→eq, any, All, arith, Bool-cases, ◌==◌,
}
use fuel_monitoring.Redis.{Redis}
use fuel_monitoring.Security.{Crypto}
use fuel_monitoring.Dispensing.Keys.{Key, Value}
use fuel_monitoring.Dispensing.Models.{ok, Result-cases, Error}
use fuel_monitoring.Dispensing.Generator.{Generated}
use fuel_monitoring.Dispensing.Rows.{keep_if_unmatched}
use fuel_monitoring.Dispensing.Excel.{TextOps, RowFields, Row, normalise_headers, all_fields}
use fuel_monitoring.Dispensing.Excel.Batch.{
  Tables, RowDraws, Prepared, rejected, issued, PendingDispatch, persist_row, persist, pending,
  employees_of, add_employee, get_or_create_employee, Employee, new_employee, prepared, add_rows,
  ingest_excel, read_rows, all_columns, parse_rows, raised, finished,
}

-- An employee id that some employee has, but none of the company.
abbrev pub taken_elsewhere : ℕ → List Employee → Text → Bool
taken_elsewhere company emps id =
    any (λ e. text_eq e.employee_id id) emps
    && not (any (λ e. e.company_id == company && text_eq e.employee_id id) emps)

any-or :
    {A : Type 0} (p q : A → Bool) (l : List A) → any (λ x. p x || q x) l ≡ false → any q l ≡ false
any-or p q [] h = refl
any-or p q (x ∷ l) h = ground (arith, any-or p q l)

All-weaken :
    {A : Type 0} (P Q : A → Type 0) → ((x : A) → P x → Q x) → (l : List A) → All P l → All Q l
All-weaken P Q implies [] h = tt
All-weaken P Q implies (x ∷ l) h = (implies x h.0, All-weaken P Q implies l h.1)

module _ (id company : ℕ) (f : RowFields) where
  -- Either the company has the employee, or it is new to all companies and added.
  get_or_create_employee-ok :
      (emps after : List Employee) (e : Employee) (found : List Employee)
      → employees_of company f.employee_id emps ≡ found
      → get_or_create_employee id company f emps ≡ ok (e, after)
      → ((after ≡ emps) × (employees_of company f.employee_id emps ≢ []))
        ⊎ ((after ≡ new_employee id company f ∷ emps)
            × (any (λ x. text_eq x.employee_id f.employee_id) emps ≡ false))
  unfolding get_or_create_employee add_employee
  get_or_create_employee-ok emps after e [] q h =
      elim (Bool-cases (any (λ d. d.id == id || text_eq d.employee_id f.employee_id) emps)) [
        | inl clash ↦ absurd (ground arith)
        | inr free ↦ inr (
          ground arith,
          any-or (λ (d : Employee). d.id == id) (λ d. text_eq d.employee_id f.employee_id) emps
              free,
        )
      ]
  get_or_create_employee-ok emps after e (x ∷ []) q h = inl (ground arith, λ w. cc)
  get_or_create_employee-ok emps after e (x ∷ y ∷ l) q h = absurd (ground arith)

  -- A row that found or added its employee: its id was not taken elsewhere.
  get_or_create_employee-owns :
      (emps after : List Employee) (e : Employee)
      → get_or_create_employee id company f emps ≡ ok (e, after)
      → taken_elsewhere company emps f.employee_id ≡ false
  get_or_create_employee-owns emps after e h =
      elim (get_or_create_employee-ok emps after e (employees_of company f.employee_id emps) refl
        h) [
          | inr (grown, free) ↦ ground (arith, free)
          | inl (same, some_own) ↦
              elim (Bool-cases
                (any (λ x. x.company_id == company && text_eq x.employee_id f.employee_id) emps)) [
                  | inl own ↦ ground (arith, own)
                  | inr none_own ↦ absurd (
                      some_own (
                        keep_if_unmatched
                          (λ x. x.company_id == company && text_eq x.employee_id f.employee_id) emps
                          none_own))
                ]
        ]

  -- An id that is not taken elsewhere afterwards was not taken elsewhere before.
  get_or_create_employee-before :
      (emps after : List Employee) (e : Employee) (x : Text)
      → get_or_create_employee id company f emps ≡ ok (e, after)
      → taken_elsewhere company after x ≡ false
      → taken_elsewhere company emps x ≡ false
  get_or_create_employee-before emps after e x h free =
      elim (get_or_create_employee-ok emps after e (employees_of company f.employee_id emps) refl
        h) [
          | inl (same, some_own) ↦ rw same at free
          | inr (grown, fresh) ↦ elim (Bool-cases (text_eq f.employee_id x)) [
            | inl is_x ↦
                let e : f.employee_id ≡ x = text_eq→eq f.employee_id x is_x in
                rw (← e) (ground (arith, fresh))
            | inr other ↦ let known = rw grown at free in ground (arith, other, known)
          ]
        ]

module _ (now batch company : ℕ) (draws : ℕ → RowDraws) where
  persist_row-employees :
      (n : ℕ) (f : RowFields) (g : Generated) (t t' : Tables)
      → persist_row now batch company draws n f g t ≡ ok t'
      → (e : Employee) × (get_or_create_employee (draws n).employee company f t.employees
          ≡ ok (e, t'.employees))
  unfolding persist_row add_rows
  persist_row-employees n f g t t' h =
      elim (Result-cases (get_or_create_employee (draws n).employee company f t.employees)) [
        | inr (e, q) ↦ absurd (ground arith)
        | inl ((e, emps), q) ↦ (e, ground arith)
      ]

  persist-before :
      (rows : List Prepared) (t t' : Tables)
      → persist now batch company draws rows t ≡ ok t'
      → All
          (λ p. taken_elsewhere company t.employees p.employee_id ≡ false)
          (pending now batch company draws rows)
  unfolding persist pending
  persist-before [] t t' h = tt
  persist-before (rejected e ∷ rows) t t' h = persist-before rows t t' h
  persist-before (issued n f g ∷ rows) t t' h =
      elim (Result-cases (persist_row now batch company draws n f g t)) [
        | inr (e, q) ↦ absurd (ground arith)
        | inl (u, q) ↦
            let (e, added) = persist_row-employees n f g t u q in
            let id = (draws n).employee in
            (
              get_or_create_employee-owns id company f t.employees u.employees e added,
              All-weaken
                  (λ (p : PendingDispatch).
                    taken_elsewhere company u.employees p.employee_id ≡ false)
                  (λ p. taken_elsewhere company t.employees p.employee_id ≡ false)
                  (λ p.
                    get_or_create_employee-before id company f t.employees u.employees e
                      p.employee_id added)
                  (pending now batch company draws rows) (persist-before rows u t' (rw q at h)),
            )
      ]

-- a test that no element passes
any-All-false :
    {A : Type 0} (p : A → Bool) (l : List A) → All (λ x. p x ≡ false) l → any p l ≡ false
any-All-false p [] h = refl
any-All-false p (x ∷ l) h = ground (arith, h.0, any-All-false p l h.1)

module _ (ops : TextOps) (crypto : Crypto) (r : Redis Key Value) (draws : ℕ → RowDraws)
    (now batch company : ℕ) where
  -- One row that got a code and names an employee id that another company's employee has, and no
  -- employee of the uploading company, fails the upload of a sheet that has all the columns and whose
  -- rows were parsed: it raises, and the tables are as before.
  pub ingest_excel-owns :
      (suffix : Text) (xlsx csv : List (ℕ × List Text)) (s : r.Store) (t : Tables) (first : ℕ)
      (header : List Text) (rows : List (ℕ × List Text)) (parsed : List (ℕ × Row))
      → read_rows suffix xlsx csv ≡ some ((first, header) ∷ rows)
      → all_columns (normalise_headers ops header) all_fields ≡ true
      → parse_rows ops (normalise_headers ops header) rows ≡ ok parsed
      → any
          (λ (p : PendingDispatch). taken_elsewhere company t.employees p.employee_id)
          (pending now batch company draws (prepared crypto r draws parsed s t.db))
        ≡ true
      → (e : Error) × (ingest_excel crypto r draws ops now batch company suffix xlsx csv s t
          ≡ (inr (raised e), t))
  unfolding ingest_excel finished
  ingest_excel-owns suffix xlsx csv s t first header rows parsed source all is_parsed clash =
      let ready = prepared crypto r draws parsed s t.db in
      elim (Result-cases (persist now batch company draws ready t)) [
        | inr (e, q) ↦ (e, rw (source, all, is_parsed, q) refl)
        | inl (t', q) ↦
            let free =
              any-All-false
                (λ (p : PendingDispatch). taken_elsewhere company t.employees p.employee_id)
                (pending now batch company draws ready)
                (persist-before now batch company draws ready t t' q) in
            absurd (ground (arith, free, clash))
      ]
