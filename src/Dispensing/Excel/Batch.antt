-- ===== src/Dispensing/Excel/Batch.antt =====
-- `ingest_excel` of platform/fmp/services/dispensing/excel_ingestion.py: one upload, from the rows that
-- its reader returned to the commit. Rows are numbered as in the sheet. An exception rolls all back.
use fuel_monitoring.Prelude.{
  ℕ, ◌-◌, Bool, true, ◌&&◌, ◌||◌, Option, none, some, List, [], ◌∷◌, Text, codes, text_eq, length,
  any, keep_if, ◌==◌, if◌then◌else◌, map, ◌⊎◌, inl, inr,
}
use fuel_monitoring.Redis.{Redis}
use fuel_monitoring.Security.{Crypto}
use fuel_monitoring.Dispensing.Keys.{Key, Value}
use fuel_monitoring.Dispensing.Models.{
  Allocation, AllocationStatus, DispenseCode, CodeStatus, Db, Error, Result, ok, err, ◌>>=◌,
  integrity, scalar_one_or_none,
}
use fuel_monitoring.Dispensing.Generator.{Draws, Generated, generate_unique_code, code_expiry}
use fuel_monitoring.Dispensing.Engine.Settlement.{code_max_attempts, violates_unique}
use fuel_monitoring.Dispensing.Excel.{
  TextOps, Field, all_fields, has_column, normalise_headers, RowFields, RowError, generation_failed,
  Row, error, good, parse_row,
}

-- `Employee` of platform/fmp/models/station.py; `employee_id` is unique over all companies.
pub record Employee : Type 0 where
  pub id : ℕ
  pub employee_id : Text
  pub name : Text
  pub phone : Text
  pub company_id : ℕ
  pub is_active : Bool

-- What a bad row reports: its number, the employee id or "-", and the reason.
pub record RowReport : Type 0 where
  pub row : ℕ
  pub employee_id : Text
  pub reason : RowError

-- `UploadBatch` of platform/fmp/models/user.py, when it is COMPLETED
pub record UploadBatch : Type 0 where
  pub id : ℕ
  pub total_rows : ℕ
  pub successful_rows : ℕ
  pub failed_rows : ℕ
  pub error_log : List RowReport

-- `PendingDispatch` of platform/fmp/schemas/notifications.py
pub record PendingDispatch : Type 0 where
  pub allocation_id : ℕ
  pub employee_id : Text
  pub employee_name : Text
  pub phone : Text
  pub code : Text
  pub liters : ℕ
  pub invoice_number : Option Text
  pub company_id : ℕ

-- The tables that an upload writes.
pub record Tables : Type 0 where
  pub db : Db
  pub employees : List Employee
  pub batches : List UploadBatch

-- What the database and `secrets` draw for one row.
pub record RowDraws : Type 0 where
  pub employee : ℕ
  pub allocation : ℕ
  pub code : ℕ
  pub secrets : Draws

-- A row after the codes were generated.
pub data Prepared : Type 0 where
  rejected : RowReport → Prepared
  issued : (row : ℕ) → RowFields → Generated → Prepared

pub data IngestError : Type 0 where
  unsupported_type empty_workbook missing_columns : IngestError
  raised : Error → IngestError

-- `employee_id or "-"`
abbrev or_dash : Text → Text
or_dash [] = codes "-"
or_dash (c ∷ s) = c ∷ s

abbrev pub report : ℕ → Text → RowError → Prepared
report n id e = rejected (record { row = n; employee_id = or_dash id; reason = e })

-- `_membership_async`
abbrev pub membership : List Text → Text → Result Bool
membership bucket x = ok (any (text_eq x) bucket)

-- `_load_existing_fingerprints`
abbrev pub load_existing_fingerprints : Db → List Text
load_existing_fingerprints db = map (λ (c : DispenseCode). c.code_fp) db.codes

-- A row after its call of the generator: what it becomes, and the sets that then are taken.
unfoldable pub prepared_row : ℕ → RowFields → Result Generated → Prepared
prepared_row n f (err e) = report n f.employee_id generation_failed
prepared_row n f (ok g) = issued n f g

unfoldable pub with_hash : Result Generated → List Text → List Text
with_hash (err e) hashes = hashes
with_hash (ok g) hashes = g.code_hash ∷ hashes

unfoldable pub with_fp : Result Generated → List Text → List Text
with_fp (err e) fps = fps
with_fp (ok g) fps = g.code_fp ∷ fps

module _ (crypto : Crypto) (r : Redis Key Value) (s : r.Store) (draws : ℕ → RowDraws) where
  -- The call of `generate_unique_code` for one row.
  abbrev pub row_code : ℕ → (hashes fps : List Text) → Result Generated
  row_code n hashes fps =
      generate_unique_code crypto r s (draws n).secrets (some (membership hashes))
        (some (membership fps)) none

  -- The loop that generates codes, with the hashes and fingerprints that are taken.
  unfoldable pub issue_codes : List (ℕ × Row) → (hashes fps : List Text) → List Prepared
  issue_codes [] hashes fps = []
  issue_codes ((n, error id e) ∷ rows) hashes fps = report n id e ∷ issue_codes rows hashes fps
  issue_codes ((n, good f) ∷ rows) hashes fps =
      let made = row_code n hashes fps in
      prepared_row n f made ∷ issue_codes rows (with_hash made hashes) (with_fp made fps)

-- The query of `_get_or_create_employee`.
abbrev pub employees_of : (company : ℕ) → Text → List Employee → List Employee
employees_of company id emps =
    keep_if (λ e. e.company_id == company && text_eq e.employee_id id) emps

abbrev pub new_employee : (id company : ℕ) → RowFields → Employee
new_employee id company f = record {
  id = id;
  employee_id = f.employee_id;
  name = f.name;
  phone = f.phone;
  company_id = company;
  is_active = true;
}

-- The insert of an employee, whose id and employee id are unique.
unfoldable pub add_employee : Employee → List Employee → Result (Employee × List Employee)
add_employee e emps =
    if any (λ d. d.id == e.id || text_eq d.employee_id e.employee_id) emps
    then err integrity
    else ok (e, e ∷ emps)

abbrev found_or_added :
    Employee → List Employee → Option Employee → Result (Employee × List Employee)
found_or_added new emps none = add_employee new emps
found_or_added new emps (some e) = ok (e, emps)

-- `_get_or_create_employee`
unfoldable pub get_or_create_employee :
    (id company : ℕ) → RowFields → List Employee → Result (Employee × List Employee)
unfolding add_employee
get_or_create_employee id company f emps = do
  found ← scalar_one_or_none (employees_of company f.employee_id emps)
  found_or_added (new_employee id company f) emps found

unfoldable pub new_allocation : (id batch company : ℕ) → Employee → RowFields → Allocation
new_allocation id batch company e f = record {
  id = id;
  employee_id = e.id;
  employee_name = some e.name;
  upload_batch_id = batch;
  company_id = company;
  invoice_number = f.invoice_number;
  allocated_liters = f.allocated_liters;
  dispensed_liters = 0;
  remaining_liters = f.allocated_liters;
  status = AllocationStatus.pending;
}

unfoldable pub new_code : (now id allocation_id : ℕ) → RowFields → Generated → DispenseCode
new_code now id allocation_id f g = record {
  id = id;
  allocation_id = allocation_id;
  code_hash = g.code_hash;
  code_fp = g.code_fp;
  code_length = length g.code;
  authorized_liters = f.allocated_liters;
  consumed_liters = 0;
  status = CodeStatus.active;
  max_attempts = code_max_attempts;
  attempt_count = 0;
  expires_at = some (code_expiry now);
  used_at = none;
}

-- The two inserts of a row, which the unique columns may refuse.
unfoldable pub add_rows : Allocation → DispenseCode → Db → Result Db
add_rows a c db =
    if violates_unique db c a
    then err integrity
    else ok (record db { allocations = a ∷ db.allocations; codes = c ∷ db.codes })

abbrev pub pending_of : (allocation company : ℕ) → RowFields → Generated → PendingDispatch
pending_of allocation company f g = record {
  allocation_id = allocation;
  employee_id = f.employee_id;
  employee_name = f.name;
  phone = f.phone;
  code = g.code;
  liters = f.allocated_liters;
  invoice_number = f.invoice_number;
  company_id = company;
}

module _ (now batch company : ℕ) (draws : ℕ → RowDraws) where
  -- The body of the loop that persists, for one row.
  unfoldable pub persist_row : ℕ → RowFields → Generated → Tables → Result Tables
  persist_row n f g t = do
    (e, emps) ← get_or_create_employee (draws n).employee company f t.employees
    let a = new_allocation (draws n).allocation batch company e f
    db ← add_rows a (new_code now (draws n).code (draws n).allocation f g) t.db
    ok (record t { db = db; employees = emps })

  unfoldable pub persist : List Prepared → Tables → Result Tables
  persist [] t = ok t
  persist (rejected e ∷ rows) t = persist rows t
  persist (issued n f g ∷ rows) t = persist_row n f g t >>= persist rows

  -- `pending`, in the order of the sheet
  unfoldable pub pending : List Prepared → List PendingDispatch
  pending [] = []
  pending (rejected e ∷ rows) = pending rows
  pending (issued n f g ∷ rows) = pending_of (draws n).allocation company f g ∷ pending rows

-- The rows with `is_error`, for `_errors_json` and for the answer
unfoldable pub reports : List Prepared → List RowReport
reports [] = []
reports (rejected e ∷ rows) = e ∷ reports rows
reports (issued n f g ∷ rows) = reports rows

abbrev pub all_columns : List (Field × ℕ) → List Field → Bool
all_columns headers [] = true
all_columns headers (f ∷ fs) = has_column f headers && all_columns headers fs

-- The rows that the reader for the suffix returns.
abbrev pub read_rows : Text → (xlsx csv : List (ℕ × List Text)) → Option (List (ℕ × List Text))
read_rows suffix xlsx csv =
    if text_eq suffix (codes ".xlsx") || text_eq suffix (codes ".xls")
    then some xlsx
    else if text_eq suffix (codes ".csv")
    then some csv
    else none

-- What `ingest_excel` returns.
pub record IngestOutcome : Type 0 where
  pub batch : UploadBatch
  pub errors : List RowReport
  pub pending_dispatch : List PendingDispatch

module _ (now batch company : ℕ) (draws : ℕ → RowDraws) where
  abbrev pub completed_batch : (total : ℕ) → List Prepared → UploadBatch
  completed_batch total rows =
      let created = length (pending now batch company draws rows) in
      record {
        id = batch;
        total_rows = total;
        successful_rows = created;
        failed_rows = length rows - created;
        error_log = reports rows;
      }

  -- The commit, after the rows were persisted.
  unfoldable pub finished :
      (total : ℕ) → List Prepared → Tables → Result Tables → (IngestOutcome ⊎ IngestError) × Tables
  finished total rows t (err e) = (inr (raised e), t)
  finished total rows t (ok t') = (
    inl (record {
      batch = completed_batch total rows;
      errors = reports rows;
      pending_dispatch = pending now batch company draws rows;
    }),
    record t' { batches = completed_batch total rows ∷ t'.batches },
  )

unfoldable pub parse_rows :
    TextOps → List (Field × ℕ) → List (ℕ × List Text) → Result (List (ℕ × Row))
parse_rows ops headers [] = ok []
parse_rows ops headers ((n, cells) ∷ rows) = do
  row ← parse_row ops headers cells
  more ← parse_rows ops headers rows
  ok ((n, row) ∷ more)

module _ (crypto : Crypto) (r : Redis Key Value) (draws : ℕ → RowDraws) where
  -- The rows with their codes.
  unfoldable pub prepared : List (ℕ × Row) → r.Store → Db → List Prepared
  prepared parsed s db = issue_codes crypto r s draws parsed [] (load_existing_fingerprints db)

  module _ (ops : TextOps) (now batch company : ℕ) where
    -- The rows once all of them are parsed; an exception of the schema leaves the upload.
    abbrev pub with_parsed :
        Result (List (ℕ × Row)) → r.Store → Tables → (IngestOutcome ⊎ IngestError) × Tables
    with_parsed (err e) s t = (inr (raised e), t)
    with_parsed (ok parsed) s t =
        let ready = prepared parsed s t.db in
        finished now batch company draws (length parsed) ready t
          (persist now batch company draws ready t)

    abbrev pub with_headers :
        List (Field × ℕ)
        → List (ℕ × List Text)
        → r.Store
        → Tables
        → (IngestOutcome ⊎ IngestError) × Tables
    with_headers headers rows s t =
        if all_columns headers all_fields
        then with_parsed (parse_rows ops headers rows) s t
        else (inr missing_columns, t)

    abbrev with_rows :
        Option (List (ℕ × List Text)) → r.Store → Tables → (IngestOutcome ⊎ IngestError) × Tables
    with_rows none s t = (inr unsupported_type, t)
    with_rows (some []) s t = (inr empty_workbook, t)
    with_rows (some ((n, header) ∷ rows)) s t = with_headers (normalise_headers ops header) rows s t

    -- `ingest_excel`; the store of Redis is only read.
    unfoldable pub ingest_excel :
        (suffix : Text)
        → (xlsx csv : List (ℕ × List Text)) → r.Store
        → Tables
        → (IngestOutcome ⊎ IngestError) × Tables
    ingest_excel suffix xlsx csv s t = with_rows (read_rows suffix xlsx csv) s t
