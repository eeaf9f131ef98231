-- ===== src/Gateway/Csv.antt =====
-- parseCSV of gateway-service/internal/transport/http/handler/diplomas.go, on the rows that
-- encoding/csv reads.
pub mod Reads
use Prim.Native.String
use diasoft.Prelude.{
  get_elem?, ℕ, zero, suc, ◌+◌, Char, code, String, Option, none, some, List, [], ◌∷◌, Result, ok,
  err, ◌>>=◌, parse_int64, trim_space, join, ◌==◌, Eq-string, Eq-nat, if◌then◌else◌,
}
use diasoft.Gateway.Model.{Error, message, UploadRecord}

-- strings.TrimPrefix(s, "\uFEFF")
abbrev trim_mark : String → String
trim_mark String.[] = ""
trim_mark (String.◌∷◌ c s) = if code c == 0xfeff then s else String.◌∷◌ c s

unfoldable pub normalize_csv_header : String → String
normalize_csv_header header = trim_mark (trim_space header)

-- headerIndex[name], for the headers from the given index on: the last column with the name counts.
unfoldable pub header_index : String → ℕ → List String → Option ℕ
header_index name i [] = none
header_index name i (h ∷ hs) = elim (header_index name (suc i) hs) [
  | some j ↦ some j
  | none ↦ if normalize_csv_header h == name then some i else none
]

abbrev pub needed : {A : Type 0} → Option A → String → Result Error A
needed none text = err (message text)
needed (some a) text = ok a

pub record Columns : Type 0 where
  pub full_name : ℕ
  pub diploma_number : ℕ
  pub specialty : ℕ
  pub degree : ℕ
  pub faculty : ℕ
  pub year : ℕ

unfoldable pub column : List String → String → Result Error ℕ
column header name =
    needed (header_index name 0 header) (String.◌++◌ "csv header is missing required column: " name)

unfoldable pub columns_of : List String → Result Error Columns
columns_of header = do
  full_name ← column header "full_name"
  diploma_number ← column header "diploma_number"
  specialty ← column header "specialty"
  degree ← column header "degree"
  faculty ← column header "faculty"
  year ← column header "year"
  ok (record {
    full_name = full_name;
    diploma_number = diploma_number;
    specialty = specialty;
    degree = degree;
    faculty = faculty;
    year = year;
  })

abbrev pub comma : Char
comma = ","

abbrev cell : List String → ℕ → Result Error String
cell row i = needed (get_elem? row i) "csv row has missing values"

unfoldable pub row_record : Columns → List String → Result Error UploadRecord
row_record c row = do
  full_name ← cell row c.full_name
  diploma_number ← cell row c.diploma_number
  specialty ← cell row c.specialty
  degree ← cell row c.degree
  faculty ← cell row c.faculty
  year ← cell row c.year
  value ← needed (parse_int64 (trim_space year)) "invalid year in csv"
  ok (record {
    full_name = trim_space full_name;
    diploma_number = trim_space diploma_number;
    specialty = trim_space specialty;
    degree = trim_space degree;
    faculty = trim_space faculty;
    year = value;
    raw_csv_row = join comma row;
  })

unfoldable pub row_records : Columns → List (List String) → Result Error (List UploadRecord)
row_records c [] = ok []
row_records c (row ∷ rows) = do r ← row_record c row; rs ← row_records c rows; ok (r ∷ rs)

abbrev too_short : Result Error (List UploadRecord)
too_short = err (message "csv must contain header and at least one row")

abbrev of_rows : List (List String) → Result Error (List UploadRecord)
of_rows [] = too_short
of_rows (header ∷ []) = too_short
of_rows (header ∷ row ∷ rows) = do c ← columns_of header; row_records c (row ∷ rows)

-- The rows are what ReadAll gives, or nothing if it fails.
unfoldable pub parse_csv : Option (List (List String)) → Result Error (List UploadRecord)
unfolding columns_of row_records
parse_csv none = err (message "failed to read csv")
parse_csv (some rows) = of_rows rows
