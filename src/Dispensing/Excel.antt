-- ===== src/Dispensing/Excel.antt =====
-- The rows of an Excel or CSV sheet: headers, cells and their checks in
-- platform/fmp/services/dispensing/excel_ingestion.py. The functions of Python's `str` and `float` on
-- whole texts are parameters. Litres are microlitres in a cell and millilitres once they are rounded.
pub mod Batch
pub mod Runs
pub mod Inserts
pub mod Owners
pub mod Valid
pub mod Issue
pub mod Sheet
pub mod Count
mod Tests
use fuel_monitoring.Prelude.{
  ℕ, zero, suc, ◌+◌, ◌*◌, Bool, true, false, not, ◌&&◌, ◌||◌, Option, none, some, List, [], ◌∷◌,
  ◌++◌, Text, codes, text_eq, length, get_elem?, any, keep_if, ltb, leb, ◌==◌, if◌then◌else◌,
}
use fuel_monitoring.Dispensing.Models.{round3, Result, ok, err, validation}

pub record TextOps : Type 0 where
  pub strip : Text → Text
  pub lower : Text → Text
  -- `\d` of a regular expression on text: a decimal digit of any script
  pub is_digit : ℕ → Bool
  -- `float(text)` in whole microlitres; none is a `ValueError`. Zero stands for what is not above zero,
  -- nan included; infinity is any number above the bound on litres.
  pub float_of : Text → Option ℕ

-- `VALID_FIELDS`
pub data Field : Type 0 where
  employee_id name phone invoice_number allocated_liters : Field

abbrev pub all_fields : List Field
all_fields = employee_id ∷ name ∷ phone ∷ invoice_number ∷ allocated_liters ∷ []

abbrev pub field_eq : Field → Field → Bool
field_eq employee_id employee_id = true
field_eq name name = true
field_eq phone phone = true
field_eq invoice_number invoice_number = true
field_eq allocated_liters allocated_liters = true
field_eq _ _ = false

abbrev is_one_of : Text → List Text → Bool
is_one_of t names = any (text_eq t) names

-- `COLUMN_ALIASES.get`; the Arabic names are their code points.
unfoldable pub column_alias : Text → Option Field
column_alias t =
    if is_one_of t (
      codes "employee id"
      ∷ codes "employee_id"
      ∷ (0x627 ∷ 0x644 ∷ 0x631 ∷ 0x642 ∷ 0x645 ∷ 0x20 ∷ 0x627 ∷ 0x644 ∷ 0x648 ∷ 0x638 ∷ 0x64A
          ∷ 0x641 ∷ 0x64A ∷ [])
      ∷ [])
    then some employee_id
    else if is_one_of t (
        codes "name"
        ∷ codes "employee name"
        ∷ codes "employee_name"
        ∷ codes "name (english)"
        ∷ (0x627 ∷ 0x644 ∷ 0x627 ∷ 0x633 ∷ 0x645 ∷ [])
        ∷ [])
    then some name
    else if is_one_of t (
        codes "phone"
        ∷ codes "phone number"
        ∷ codes "mobile"
        ∷ codes "mobile number"
        ∷ (0x631 ∷ 0x642 ∷ 0x645 ∷ 0x20 ∷ 0x627 ∷ 0x644 ∷ 0x647 ∷ 0x627 ∷ 0x62A ∷ 0x641 ∷ [])
        ∷ [])
    then some phone
    else if is_one_of t (
        codes "invoice number"
        ∷ codes "invoice_no"
        ∷ codes "invoice"
        ∷ (0x631 ∷ 0x642 ∷ 0x645 ∷ 0x20 ∷ 0x627 ∷ 0x644 ∷ 0x641 ∷ 0x627 ∷ 0x62A ∷ 0x648 ∷ 0x631
            ∷ 0x629 ∷ [])
        ∷ [])
    then some invoice_number
    else if is_one_of t (
        codes "allocated liters"
        ∷ codes "allocated_liters"
        ∷ codes "liters"
        ∷ codes "allocation (l)"
        ∷ codes "Litres"
        ∷ (0x627 ∷ 0x644 ∷ 0x644 ∷ 0x62A ∷ 0x631 ∷ 0x627 ∷ 0x62A ∷ [])
        ∷ [])
    then some allocated_liters
    else none

-- The canonical fields with their columns.
unfoldable pub column_of : Field → List (Field × ℕ) → Option ℕ
column_of f [] = none
column_of f ((g, i) ∷ m) = if field_eq g f then some i else column_of f m

abbrev has_column : Field → List (Field × ℕ) → Bool
has_column f m = elim (column_of f m) [ none ↦ false | some i ↦ true ]

abbrev mapped : Option Field → ℕ → List (Field × ℕ) → List (Field × ℕ)
mapped none i m = m
mapped (some f) i m = if has_column f m then m else m ++ (f, i) ∷ []

abbrev in_range : Option ℕ → Option ℕ
in_range none = none
in_range (some u) = if ltb 0 u && leb u 10000000000 then some (round3 u) else none

-- `$` also matches before a newline at the end.
unfoldable pub chop_newline : Text → Text
chop_newline [] = []
chop_newline (c ∷ []) = if c == 10 then [] else c ∷ []
chop_newline (c ∷ d ∷ s) = c ∷ chop_newline (d ∷ s)

unfoldable pub all_of : (ℕ → Bool) → Text → Bool
all_of p [] = true
all_of p (c ∷ s) = p c && all_of p s

abbrev pub between : ℕ → ℕ → ℕ → Bool
between lo hi n = leb lo n && leb n hi

abbrev pub is_id_char : ℕ → Bool
is_id_char c =
    between b'A' b'Z' c
    || between b'a' b'z' c
    || (between b'0' b'9' c || c == b'_' || (c == b'-' || c == b'.'))

-- `EMPLOYEE_ID_RE.match`
unfoldable pub is_employee_id : Text → Bool
is_employee_id s = let t = chop_newline s in all_of is_id_char t && between 1 64 (length t)

-- The fields of a row that passed its checks.
pub record RowFields : Type 0 where
  pub employee_id : Text
  pub name : Text
  pub phone : Text
  pub invoice_number : Option Text
  pub allocated_liters : ℕ

-- What a row is rejected for, and the text of an exception of the code generator.
pub data RowError : Type 0 where
  missing_employee_id invalid_employee_id missing_name invalid_phone : RowError
  invalid_liters generation_failed : RowError

-- `_Row.error`, with the employee id that it reports, and a row of `_Row.ok`
pub data Row : Type 0 where
  error : (employee_id : Text) → RowError → Row
  good : RowFields → Row

abbrev cell_at : List Text → Option Text → Text
cell_at cells none = []
cell_at cells (some t) = t

abbrev pub get_cell : List (Field × ℕ) → List Text → Field → Text
get_cell headers cells f = elim (column_of f headers) [
  | none ↦ []
  | some i ↦ cell_at cells (get_elem? cells i)
]

abbrev or_none : Text → Option Text
or_none [] = none
or_none (c ∷ s) = some (c ∷ s)

abbrev is_empty : Text → Bool
is_empty [] = true
is_empty (c ∷ s) = false

-- `_Row.ok`: the schema of its output wants litres above zero, and raises otherwise.
abbrev pub ok_row : RowFields → Result Row
ok_row f = if f.allocated_liters == 0 then err validation else ok (good f)

abbrev with_liters : Text → Text → Text → Text → Option ℕ → Result Row
with_liters i n p v none = ok (error i invalid_liters)
with_liters i n p v (some l) = ok_row (record {
  employee_id = i;
  name = n;
  phone = p;
  invoice_number = or_none v;
  allocated_liters = l;
})

module _ (ops : TextOps) where
  abbrev or_exact : Text → Option Field → Option Field
  or_exact cell none = column_alias (ops.strip cell)
  or_exact cell (some f) = some f

  -- `_normalise_headers`, from a column on
  unfoldable pub headers_from : ℕ → List Text → List (Field × ℕ) → List (Field × ℕ)
  headers_from i [] m = m
  headers_from i (cell ∷ cells) m =
      headers_from (i + 1) cells
        (mapped (or_exact cell (column_alias (ops.lower (ops.strip cell)))) i m)

  abbrev pub normalise_headers : List Text → List (Field × ℕ)
  normalise_headers cells = headers_from 0 cells []

  -- `_coerce_liters`
  unfoldable pub coerce_liters : Text → Option ℕ
  coerce_liters value = in_range (ops.float_of (ops.strip (keep_if (λ c. not (c == b',')) value)))

  abbrev pub national : Text → Bool
  national [] = false
  national (c ∷ s) = between b'1' b'9' c && (all_of ops.is_digit s && between 6 14 (length s))

  abbrev pub after_plus : Text → Bool
  after_plus [] = false
  after_plus (c ∷ s) = if c == b'+' then national s else national (c ∷ s)

  -- `PHONE_RE.match`: an optional +, a digit from 1 to 9, six to fourteen digits
  unfoldable pub is_phone : Text → Bool
  is_phone s = after_plus (chop_newline s)

  -- The checks of `_parse_row`, on the stripped cells.
  unfoldable pub checked_row : (i n p v : Text) → Option ℕ → Result Row
  checked_row i n p v liters =
      if is_empty i
      then ok (error [] missing_employee_id)
      else if not (is_employee_id i)
      then ok (error i invalid_employee_id)
      else if is_empty n
      then ok (error i missing_name)
      else if not (is_phone p)
      then ok (error i invalid_phone)
      else with_liters i n p v liters

  -- `_parse_row`
  unfoldable pub parse_row : List (Field × ℕ) → List Text → Result Row
  parse_row headers cells =
      let get = λ (f : Field). get_cell headers cells f in
      checked_row (ops.strip (get Field.employee_id)) (ops.strip (get Field.name))
        (ops.strip (get Field.phone)) (ops.strip (get Field.invoice_number))
        (coerce_liters (get Field.allocated_liters))
