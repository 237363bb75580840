-- ===== src/Dispensing/Excel/Tests.antt =====
-- A sheet with one good row and one bad row, and the theorems at it.
use fuel_monitoring.Prelude.{
  ℕ, ◌+◌, ◌-◌, ◌*◌, ◌≡◌, refl, ◌⊎◌, inl, inr, true, any, Option, none, some, List, [], ◌∷◌, Text,
  codes, text_eq, All, arith, if◌then◌else◌, ◌&&◌, leb,
}
use fuel_monitoring.Security.{digits_from, generate_secure_code, code_fingerprint, hash_code}
use fuel_monitoring.Dispensing.Bench.{crypto, hex, server, empty}
use fuel_monitoring.Dispensing.Keys.{key_eq}
use fuel_monitoring.Dispensing.Models.{round3, Error, ok, err, validation}
use fuel_monitoring.Dispensing.Rows.{total_dispensed, total_logged}
use fuel_monitoring.Dispensing.Soundness.{IsSound}
use fuel_monitoring.Dispensing.Generator.{
  generate_unique_code, generate_loop, candidate, collides, choose_length,
}
use fuel_monitoring.Dispensing.Engine.Settlement.{violates_unique}
use fuel_monitoring.Dispensing.Excel.{
  TextOps, Field, column_alias, column_of, headers_from, coerce_liters, chop_newline, all_of,
  is_phone, is_employee_id, RowFields, Row, good, error, invalid_liters, checked_row, parse_row,
  normalise_headers, all_fields,
}
use fuel_monitoring.Dispensing.Excel.Batch.{
  Tables, RowDraws, IngestError, IngestOutcome, PendingDispatch, issue_codes, prepared_row,
  with_hash, with_fp, prepared, parse_rows, persist_row, persist, pending, reports, add_employee,
  get_or_create_employee, new_allocation, new_code, add_rows, finished, ingest_excel, read_rows,
  all_columns, raised,
}
use fuel_monitoring.Dispensing.Excel.Sheet.{Some, IsOfCells}
use fuel_monitoring.Dispensing.Excel.Issue.{IsIssued, ingest_excel-issues}
use fuel_monitoring.Dispensing.Excel.Owners.{taken_elsewhere, ingest_excel-owns}

-- Texts without spaces around them and in lower case; litres are one digit, or nothing.
abbrev float_text : Text → Option ℕ
float_text [] = none
float_text (c ∷ s) = if leb c b'9' then some ((c - b'0') * 1000000) else none

abbrev ops : TextOps
ops = record {
  strip = λ t. t;
  lower = λ t. t;
  is_digit = λ c. leb b'0' c && leb c b'9';
  float_of = float_text;
}

abbrev header : List Text
header = codes "employee id" ∷ codes "name" ∷ codes "phone" ∷ codes "invoice" ∷ codes "liters" ∷ []

abbrev amal : List Text
amal = codes "E1" ∷ codes "Amal" ∷ codes "+9671234567" ∷ codes "" ∷ codes "5" ∷ []

-- a row without litres
abbrev badr : List Text
badr = codes "E2" ∷ codes "Badr" ∷ codes "+9671234568" ∷ codes "" ∷ codes "x" ∷ []

abbrev draws : ℕ → RowDraws
draws n = record {
  employee = n;
  allocation = n;
  code = n;
  secrets = record { length_choice = 0; digit = λ i j. i + j; salt = λ i. 5 ∷ [] };
}

abbrev tables : Tables
tables = record {
  db = record { allocations = []; codes = []; txns = []; totalizers = []; next_txn_id = 1 };
  employees = [];
  batches = [];
}

abbrev sheet : List (ℕ × List Text)
sheet = (1, header) ∷ (2, amal) ∷ (3, badr) ∷ []

abbrev upload : (IngestOutcome ⊎ IngestError) × Tables
upload = ingest_excel crypto server draws ops 100 7 3 (codes ".csv") [] sheet empty tables

abbrev no_outcome : IngestOutcome
no_outcome = record {
  batch = record { id = 0; total_rows = 0; successful_rows = 0; failed_rows = 0; error_log = [] };
  errors = [];
  pending_dispatch = [];
}

abbrev outcome_of : IngestOutcome ⊎ IngestError → IngestOutcome
outcome_of (inl o) = o
outcome_of (inr e) = no_outcome

answered : upload ≡ (inl (outcome_of upload.0), upload.1)
unfolding ingest_excel finished persist persist_row pending reports issue_codes prepared_row
    prepared parse_rows with_hash with_fp add_employee get_or_create_employee new_allocation
    new_code add_rows generate_unique_code generate_loop candidate collides choose_length
    generate_secure_code digits_from hash_code code_fingerprint violates_unique headers_from
    column_alias column_of coerce_liters round3 chop_newline all_of is_phone is_employee_id
    checked_row parse_row text_eq key_eq
answered = refl

abbrev tail_of : {A : Type 0} → List A → List A
tail_of [] = []
tail_of (x ∷ l) = l

sheet_read : read_rows (codes ".csv") [] sheet ≡ some ((1, header) ∷ tail_of sheet)
unfolding text_eq
sheet_read = refl

abbrev amal_fields : RowFields
amal_fields = record {
  employee_id = codes "E1";
  name = codes "Amal";
  phone = codes "+9671234567";
  invoice_number = none;
  allocated_liters = 5000;
}

-- An employee of another company with the id of the good row
abbrev elsewhere : Tables
elsewhere = record tables {
  employees =
      (record {
        id = 90;
        employee_id = codes "E1";
        name = codes "Amin";
        phone = codes "+9671234569";
        company_id = 4;
        is_active = true;
      })
      ∷ [];
}

abbrev checked : List (ℕ × Row)
checked = (2, good amal_fields) ∷ (3, error (codes "E2") invalid_liters) ∷ []

columns_there : all_columns (normalise_headers ops header) all_fields ≡ true
unfolding headers_from column_alias column_of text_eq
columns_there = refl

rows_parsed : parse_rows ops (normalise_headers ops header) (tail_of sheet) ≡ ok checked
unfolding parse_rows parse_row checked_row headers_from column_alias column_of coerce_liters round3
    chop_newline all_of is_phone is_employee_id text_eq
rows_parsed = refl

employee_taken :
    any
      (λ (p : PendingDispatch). taken_elsewhere 3 elsewhere.employees p.employee_id)
      (pending 100 7 3 draws (prepared crypto server draws checked empty elsewhere.db))
    ≡ true
unfolding pending prepared issue_codes prepared_row with_hash with_fp generate_unique_code
    generate_loop candidate collides choose_length generate_secure_code digits_from hash_code
    code_fingerprint text_eq key_eq
employee_taken = refl

ingest_excel-owns_example :
    (e : Error) × (ingest_excel crypto server draws ops 100 7 3
        (codes ".csv")
        []
        sheet
        empty
        elsewhere
      ≡ (inr (raised e), elsewhere))
ingest_excel-owns_example =
    ingest_excel-owns ops crypto server draws 100 7 3 (codes ".csv") [] sheet empty elsewhere 1
      header (tail_of sheet) checked sheet_read columns_there rows_parsed employee_taken

tables-IsSound : IsSound tables.db
unfolding total_dispensed total_logged
tables-IsSound = record { balanced = refl; quotas = tt; attempts = tt; unique = tt }

ingest_excel-issues_example :
    IsSound upload.1.db
    × All (IsIssued crypto upload.1.db) (outcome_of upload.0).pending_dispatch
    × (first : ℕ) × (header : List Text) × (rows : List (ℕ × List Text)) × (read_rows
          (codes ".csv")
          []
          sheet
        ≡ some ((first, header) ∷ rows))
    × All
        (λ (p : PendingDispatch). Some (IsOfCells ops (normalise_headers ops header) 3 p) rows)
        (outcome_of upload.0).pending_dispatch
ingest_excel-issues_example =
    ingest_excel-issues ops crypto server draws 100 7 3 (codes ".csv") [] sheet empty tables
      upload.1 (outcome_of upload.0) hex (λ n i. (omega arith, tt)) answered tables-IsSound

-- the columns of the sheet
abbrev columns : List (Field × ℕ)
columns =
    (Field.employee_id, 0)
    ∷ (Field.name, 1)
    ∷ (Field.phone, 2)
    ∷ (Field.invoice_number, 3)
    ∷ (Field.allocated_liters, 4)
    ∷ []

amal_good : parse_row ops columns amal ≡ ok (good amal_fields)
unfolding column_of coerce_liters round3 chop_newline all_of is_phone is_employee_id checked_row
    parse_row
amal_good = refl

abbrev micro : TextOps
micro = record ops { float_of = λ t. some 400 }

-- A row of less than half a millilitre raises, which no handler of a row catches.
amal-micro : parse_row micro columns amal ≡ err validation
unfolding column_of coerce_liters round3 chop_newline all_of is_phone is_employee_id checked_row
    parse_row
amal-micro = refl
