-- ===== src/Gateway/Csv/Reads.antt =====
-- Where the fields of a record that is read from CSV come from.
use diasoft.Prelude.{
  get_elem?, ℕ, suc, ◌+◌, ◌<◌, String, ◌≡◌, refl, ap, ◌∙◌, inl, inr, Option, none, some, List, [],
  ◌∷◌, ok, length, parse_int64, trim_space, bind-ok, Option-cases, Bool-cases, ◌==◌, Eq-string,
  eq_iff, arith,
}
use diasoft.Gateway.Model.{UploadRecord}
use diasoft.Gateway.Csv.{
  normalize_csv_header, header_index, needed, Columns, column, columns_of, row_record, row_records,
  parse_csv,
}

-- The column at the index has the title.
abbrev pub HasTitle : List String → String → ℕ → Type 0
HasTitle header name i =
    (title : String) × (get_elem? header i ≡ some title) × (normalize_csv_header title ≡ name)

pub record HasColumns (header : List String) (c : Columns) : Type 0 where
  pub full_name : HasTitle header "full_name" c.full_name
  pub diploma_number : HasTitle header "diploma_number" c.diploma_number
  pub specialty : HasTitle header "specialty" c.specialty
  pub degree : HasTitle header "degree" c.degree
  pub faculty : HasTitle header "faculty" c.faculty
  pub year : HasTitle header "year" c.year

-- The field is the trimmed cell.
abbrev pub Holds : List String → ℕ → String → Type 0
Holds row i field = (x : String) × (get_elem? row i ≡ some x) × (field ≡ trim_space x)

pub record IsRow (c : Columns) (row : List String) (r : UploadRecord) : Type 0 where
  pub full_name : Holds row c.full_name r.full_name
  pub diploma_number : Holds row c.diploma_number r.diploma_number
  pub specialty : Holds row c.specialty r.specialty
  pub degree : Holds row c.degree r.degree
  pub faculty : Holds row c.faculty r.faculty
  pub year :
      (x : String) × (get_elem? row c.year ≡ some x) × (parse_int64 (trim_space x) ≡ some r.year)

-- One record for each row, in order.
abbrev pub AreRows : Columns → List (List String) → List UploadRecord → Type 0
AreRows c [] [] = Unit
AreRows c [] (r ∷ rs) = ⊥
AreRows c (row ∷ rows) [] = ⊥
AreRows c (row ∷ rows) (r ∷ rs) = IsRow c row r × AreRows c rows rs

header_index-HasTitle :
    (name : String) (i : ℕ) (hs : List String) (j : ℕ)
    → header_index name i hs ≡ some j
    → (k : ℕ) × (j ≡ i + k) × HasTitle hs name k
unfolding header_index
header_index-HasTitle name i [] j h = absurd (ground arith)
header_index-HasTitle name i (t ∷ hs) j h = elim (Option-cases (header_index name (suc i) hs)) [
  | inr (j', later) ↦
      let (k, at, (title, there, same)) = header_index-HasTitle name (suc i) hs j' later in
      (suc k, ground arith, (title, there, same))
  | inl none_later ↦ elim (Bool-cases (normalize_csv_header t == name)) [
    | inl same ↦ (0, ground arith, (t, refl, (eq_iff _ _).0 same))
    | inr other ↦ absurd (ground arith)
  ]
]

needed-ok : {A : Type 0} (o : Option A) (text : String) {a : A} → needed o text ≡ ok a → o ≡ some a
needed-ok none text h = absurd (ground arith)
needed-ok (some a) text h = ground arith

column-HasTitle :
    (header : List String) (name : String) (i : ℕ)
    → column header name ≡ ok i
    → HasTitle header name i
unfolding column
column-HasTitle header name i h =
    let (k, at, (title, there, same)) =
      header_index-HasTitle name 0 header i (needed-ok (header_index name 0 header) _ h) in
    (title, ap (get_elem? header) (ground arith) ∙ there, same)

columns_of-HasColumns :
    (header : List String) (c : Columns) → columns_of header ≡ ok c → HasColumns header c
unfolding columns_of
columns_of-HasColumns header c h =
    let (i1, e1, h1) = bind-ok (column header "full_name") _ h in
    let (i2, e2, h2) = bind-ok (column header "diploma_number") _ h1 in
    let (i3, e3, h3) = bind-ok (column header "specialty") _ h2 in
    let (i4, e4, h4) = bind-ok (column header "degree") _ h3 in
    let (i5, e5, h5) = bind-ok (column header "faculty") _ h4 in
    let (i6, e6, h6) = bind-ok (column header "year") _ h5 in
    record {
      full_name = column-HasTitle header "full_name" c.full_name (ground arith);
      diploma_number = column-HasTitle header "diploma_number" c.diploma_number (ground arith);
      specialty = column-HasTitle header "specialty" c.specialty (ground arith);
      degree = column-HasTitle header "degree" c.degree (ground arith);
      faculty = column-HasTitle header "faculty" c.faculty (ground arith);
      year = column-HasTitle header "year" c.year (ground arith);
    }

row_record-IsRow :
    (c : Columns) (row : List String) (r : UploadRecord) → row_record c row ≡ ok r → IsRow c row r
unfolding row_record
row_record-IsRow c row r h =
    let missing : String = "csv row has missing values" in
    let (x1, e1, h1) = bind-ok (needed (get_elem? row c.full_name) missing) _ h in
    let (x2, e2, h2) = bind-ok (needed (get_elem? row c.diploma_number) missing) _ h1 in
    let (x3, e3, h3) = bind-ok (needed (get_elem? row c.specialty) missing) _ h2 in
    let (x4, e4, h4) = bind-ok (needed (get_elem? row c.degree) missing) _ h3 in
    let (x5, e5, h5) = bind-ok (needed (get_elem? row c.faculty) missing) _ h4 in
    let (x6, e6, h6) = bind-ok (needed (get_elem? row c.year) missing) _ h5 in
    let (n, e7, h7) = bind-ok (needed (parse_int64 (trim_space x6)) "invalid year in csv") _ h6 in
    record {
      full_name = (x1, needed-ok (get_elem? row c.full_name) missing e1, ground arith);
      diploma_number = (x2, needed-ok (get_elem? row c.diploma_number) missing e2, ground arith);
      specialty = (x3, needed-ok (get_elem? row c.specialty) missing e3, ground arith);
      degree = (x4, needed-ok (get_elem? row c.degree) missing e4, ground arith);
      faculty = (x5, needed-ok (get_elem? row c.faculty) missing e5, ground arith);
      year = (
        x6,
        needed-ok (get_elem? row c.year) missing e6,
        needed-ok (parse_int64 (trim_space x6)) _ e7 ∙ ground arith,
      );
    }

row_records-AreRows :
    (c : Columns) (rows : List (List String)) (rs : List UploadRecord)
    → row_records c rows ≡ ok rs
    → AreRows c rows rs
unfolding row_records
row_records-AreRows c [] [] h = tt
row_records-AreRows c [] (r ∷ rs) h = absurd (ground arith)
row_records-AreRows c (row ∷ rows) [] h =
    let (r, e1, h1) = bind-ok (row_record c row) _ h in
    let (rs, e2, h2) = bind-ok (row_records c rows) _ h1 in absurd (ground arith)
row_records-AreRows c (row ∷ rows) (r ∷ rs) h =
    let (r', e1, h1) = bind-ok (row_record c row) _ h in
    let (rs', e2, h2) = bind-ok (row_records c rows) _ h1 in
    (row_record-IsRow c row r (ground arith), row_records-AreRows c rows rs (ground arith))

AreRows-length :
    (c : Columns) (rows : List (List String)) (rs : List UploadRecord)
    → AreRows c rows rs
    → length rs ≡ length rows
AreRows-length c [] [] h = refl
AreRows-length c [] (r ∷ rs) h = absurd h
AreRows-length c (row ∷ rows) [] h = absurd h
AreRows-length c (row ∷ rows) (r ∷ rs) (first, others) = ap suc (AreRows-length c rows rs others)

-- The records of a CSV file that is read are its rows after the header, in order and at least one;
-- each field is the trimmed cell of the column whose title is the name of the field, and the year is
-- the number that its cell spells.
pub parse_csv-AreRows :
    (header : List String) (rows : List (List String)) (rs : List UploadRecord)
    → parse_csv (some (header ∷ rows)) ≡ ok rs
    → (0 < length rs) × (c : Columns) × HasColumns header c × AreRows c rows rs
unfolding parse_csv
parse_csv-AreRows header [] rs h = absurd (ground arith)
parse_csv-AreRows header (row ∷ rows) rs h =
    let (c, e1, h1) = bind-ok (columns_of header) _ h in
    let are = row_records-AreRows c (row ∷ rows) rs h1 in
    (omega (arith, AreRows-length c (row ∷ rows) rs are), c, columns_of-HasColumns header c e1, are)
