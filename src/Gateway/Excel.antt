-- ===== src/Gateway/Excel.antt =====
-- gateway-service/internal/infrastructure/excel/generator.go: the table of a batch, over the library
-- excelize, which keeps the file.
mod Library
pub mod Kept
pub mod Cells
pub use Library.*
use Prim.Native.Char.{Char}
use Prim.Native.String
use diasoft.Prelude.{
  ℕ, suc, ◌+◌, String, List, [], ◌∷◌, Option, none, some, Bool, true, false, Result, ok, err, ◌>>=◌,
  ◌&&◌, ℤ, pos, map, is_empty, itoa, Eq-nat, ◌==◌, code, if◌then◌else◌,
}
use diasoft.Gateway.Model.{Error}
use diasoft.Gateway.Sealing.{Bytes}
use diasoft.Gateway.Batches.Listing.{DownloadRow}

-- What the generator uses beside: PNG of the package qr, url.QueryEscape, the address without slashes
-- at its end, and the order in which Go visits the widths.
pub record Generator : Type 0 where
  pub png : String → ℕ → Result Error Bytes
  pub query_escape : String → String
  pub public_base_url : String
  pub visit : List (String × ℕ) → List (String × ℕ)

abbrev pub onto_slashes : Char → String → String
onto_slashes c rest = if is_empty rest && code c == b'/' then "" else String.◌∷◌ c rest

-- strings.TrimRight(s, "/")
unfoldable pub trim_slashes : String → String
trim_slashes String.[] = ""
trim_slashes (String.◌∷◌ c s) = onto_slashes c (trim_slashes s)

abbrev pub new_generator :
    (String → ℕ → Result Error Bytes)
    → (String → String)
    → String
    → (List (String × ℕ) → List (String × ℕ))
    → Generator
new_generator png query_escape url visit = record {
  png = png;
  query_escape = query_escape;
  public_base_url = trim_slashes url;
  visit = visit;
}

abbrev pub sheet_name : String
sheet_name = "Дипломы"

abbrev pub headers : List String
headers =
    "№ записи" ∷ "Хеш диплома" ∷ "ФИО" ∷ "Номер диплома" ∷ "Специальность" ∷ "Степень" ∷ "Факультет"
    ∷ "Год" ∷ "Статус" ∷ "Ошибка" ∷ "QR-код" ∷ []

abbrev pub header_style : Style
header_style = record {
  bold = true;
  size = 11;
  horizontal = "center";
  vertical = "center";
  wrap_text = true;
}

abbrev pub body_style : Style
body_style = record { bold = false; size = 0; horizontal = ""; vertical = "top"; wrap_text = true }

abbrev pub center_style : Style
center_style = record {
  bold = false;
  size = 0;
  horizontal = "center";
  vertical = "center";
  wrap_text = true;
}

abbrev frozen_header : Panes
frozen_header = record {
  freeze = true;
  split = false;
  y_split = 1;
  top_left_cell = "A2";
  active_pane = "bottomLeft";
}

abbrev column_widths : List (String × ℕ)
column_widths =
    ("A", 10)
    ∷ ("B", 66)
    ∷ ("C", 32)
    ∷ ("D", 24)
    ∷ ("E", 34)
    ∷ ("F", 18)
    ∷ ("G", 22)
    ∷ ("H", 10)
    ∷ ("I", 14)
    ∷ ("J", 28)
    ∷ ("K", 24)
    ∷ []

abbrev pub value_or_empty : Option String → String
value_or_empty none = ""
value_or_empty (some s) = s

abbrev pub values : DownloadRow → List Value
values row =
    number row.record_index
    ∷ text row.diploma_hash
    ∷ text row.full_name
    ∷ text row.diploma_number
    ∷ text row.specialty
    ∷ text row.degree
    ∷ text row.faculty
    ∷ number row.year
    ∷ text row.status
    ∷ text (value_or_empty row.error)
    ∷ []

-- fmt.Sprintf("A%d", row)
abbrev pub labelled : String → ℕ → String
labelled column row = String.◌++◌ column (itoa (pos row))

abbrev pub picture_of : Bytes → Picture
picture_of png = record {
  extension = ".png";
  file = png;
  offset_x = 10;
  offset_y = 8;
  scale_x = 78;
  scale_y = 78;
  lock_aspect_ratio = true;
  positioning = "oneCell";
}

abbrev pub qr_url : Generator → String → String
qr_url g payload =
    String.◌++◌ g.public_base_url (String.◌++◌ "/verify?payload=" (g.query_escape payload))

module _ {File : Type 0} (x : Excelize File) where
  -- A row of cells from a column on.
  unfoldable pub set_values : ℕ → ℕ → List Value → File → Result Error File
  set_values row column [] f = ok f
  set_values row column (v ∷ vs) f =
      x.set_cell_value sheet_name (x.cell_name column row) v f >>= set_values row (suc column) vs

  unfoldable pub set_widths : List (String × ℕ) → File → Result Error File
  set_widths [] f = ok f
  set_widths ((column, width) ∷ rest) f =
      x.set_col_width sheet_name column column width f >>= set_widths rest

  unfoldable pub set_styles : ℕ → ℕ → ℕ → File → Result Error File
  set_styles body center row f = do
    f ← x.set_cell_style sheet_name (labelled "A" row) (labelled "K" row) body f
    f ← x.set_cell_style sheet_name (labelled "A" row) (labelled "A" row) center f
    f ← x.set_cell_style sheet_name (labelled "H" row) (labelled "K" row) center f
    x.set_row_height sheet_name row 128 f

  unfoldable pub add_qr : Generator → ℕ → String → File → Result Error File
  add_qr g row payload f =
      let drawn = g.png (qr_url g payload) 160 >>= λ bytes.
      x.add_picture sheet_name (x.cell_name 11 row) (picture_of bytes) f in
      if is_empty payload then ok f else drawn

  -- The rows from a number in the file on.
  unfoldable pub write_rows : Generator → ℕ → ℕ → ℕ → List DownloadRow → File → Result Error File
  write_rows g body center row [] f = ok f
  write_rows g body center row (r ∷ rs) f = do
    f ← set_values row 1 (values r) f
    f ← set_styles body center row f
    f ← add_qr g row r.qr_payload f
    write_rows g body center (suc row) rs f

  unfoldable pub write_header : Generator → ℕ → File → Result Error File
  unfolding set_values set_widths
  write_header g header f = do
    f ← set_values 1 1 (map text headers) f
    f ← x.set_cell_style sheet_name "A1" "K1" header f
    f ← x.set_panes sheet_name frozen_header f
    f ← x.set_row_height sheet_name 1 28 f
    set_widths (g.visit column_widths) f

  unfoldable pub build_batch : Generator → List DownloadRow → Result Error Bytes
  build_batch g rows = do
    (header, f) ← x.new_style header_style (x.set_sheet_name "Sheet1" sheet_name x.new_file)
    (body, f) ← x.new_style body_style f
    (center, f) ← x.new_style center_style f
    f ← write_header g header f
    f ← write_rows g body center 2 rows f
    x.write_to_buffer f
