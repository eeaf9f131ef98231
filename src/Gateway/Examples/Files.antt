-- ===== src/Gateway/Examples/Files.antt =====
-- The theorem on the file of a batch, at a workbook that lists what its cells were set to.
use diasoft.Prelude.{
  ℕ, zero, suc, String, Option, none, some, List, [], ◌∷◌, true, Result, ok, order_by, ◌≡◌, refl,
  sym, ap, ◌∙◌, code, ◌==◌, Eq-nat, Eq-string, eq_iff, arith, if◌then◌else◌, trim_space,
}
use diasoft.Gateway.Batches.Listing.{
  each_row, download_row, from_payload, from_qr, rows_of_batch, get_batch_download_rows,
}
use diasoft.Gateway.Model.{Error}
use diasoft.Gateway.Results.{parse_qr_payload}
use diasoft.Gateway.Excel.{
  Value, Excelize, Generator, new_generator, build_batch, set_values, set_widths, set_styles,
  add_qr, write_rows, write_header,
}
use diasoft.Gateway.Excel.Kept.{CellLaws}
use diasoft.Gateway.Handlers.Diplomas.{download_batch}
use diasoft.Gateway.Handlers.Diplomas.Downloaded.{Downloads, download_batch-Downloads}
use diasoft.Gateway.Examples.{env, record_codec}
use diasoft.Gateway.Examples.Lists.{rows_db}

abbrev File : Type 0
File = List (String × Value)

-- n times A, in front of a text.
abbrev columns : ℕ → String → String
columns zero s = s
columns (suc n) s = String.◌∷◌ "A" (columns n s)

abbrev strokes : ℕ → String
strokes zero = ""
strokes (suc n) = String.◌∷◌ "1" (strokes n)

-- How often a character stands in a text.
abbrev tally : ℕ → String → ℕ
tally c String.[] = 0
tally c (String.◌∷◌ d s) = if code d == c then suc (tally c s) else tally c s

abbrev name : ℕ → ℕ → String
name column row = columns column (strokes row)

tally-strokes : (row : ℕ) → tally b'1' (strokes row) ≡ row
tally-strokes zero = refl
tally-strokes (suc row) = ap suc (tally-strokes row)

no_column : (row : ℕ) → tally b'A' (strokes row) ≡ 0
no_column zero = refl
no_column (suc row) = no_column row

tally_row : (column row : ℕ) → tally b'1' (name column row) ≡ row
tally_row zero row = tally-strokes row
tally_row (suc column) row = tally_row column row

tally_column : (column row : ℕ) → tally b'A' (name column row) ≡ column
tally_column zero row = no_column row
tally_column (suc column) row = ap suc (tally_column column row)

abbrev excelize : Excelize File
excelize = record {
  new_file = [];
  set_sheet_name = λ from to f. f;
  new_style = λ s f. ok (0, f);
  cell_name = name;
  set_cell_value = λ sheet c v f. ok ((c, v) ∷ f);
  set_cell_style = λ sheet a b s f. ok f;
  set_panes = λ sheet p f. ok f;
  set_row_height = λ sheet row height f. ok f;
  set_col_width = λ sheet a b width f. ok f;
  add_picture = λ sheet c p f. ok f;
  write_to_buffer = λ f. ok (1 ∷ []);
}

abbrev value : File → String → Option Value
value [] d = none
value ((c, v) ∷ f) d = if c == d then some v else value f d

abbrev done : File → Result Error File
done f = ok f

-- A step that gives the file back keeps its cells.
given_back : (d : String) (f f' : File) → done f ≡ ok f' → value f' d ≡ value f d
given_back d f f' h = ap (λ g. value g d) (sym (ground (arith, h)))

laws : CellLaws excelize value
laws = record {
  set_same = λ c v f f' h fits.
      let own : (c == c) ≡ true = (eq_iff c c).1 refl in
      let e : (c, v) ∷ f ≡ f' = ground (arith, h) in ap (λ g. value g c) (sym e) ∙ ground arith;
  set_other = λ c d v f f' h apart.
      let e : (c, v) ∷ f ≡ f' = ground (arith, h) in
      ap (λ g. value g d) (sym e) ∙ ground (arith, eq_iff c d);
  named = λ column row column' row' v f f' h same. (
    sym (tally_column column row) ∙ ap (tally b'A') same ∙ tally_column column' row',
    sym (tally_row column row) ∙ ap (tally b'1') same ∙ tally_row column' row',
  );
  style_keeps = λ a b d s f f' h. given_back d f f' h;
  panes_keep = λ p d f f' h. given_back d f f' h;
  height_keeps = λ row height d f f' h. given_back d f f' h;
  width_keeps = λ a b d width f f' h. given_back d f f' h;
  picture_keeps = λ c d p f f' h. given_back d f f' h;
}

abbrev generator : Generator
generator =
    new_generator (λ url size. ok (2 ∷ [])) (λ text. text) "https://d.example/" (λ widths. widths)

downloaded :
    download_batch (build_batch excelize generator) env (some record_codec) "b1" "u1" rows_db
    ≡ ok (1 ∷ [])
unfolding download_batch build_batch write_header write_rows add_qr set_styles set_widths set_values
    get_batch_download_rows rows_of_batch each_row download_row from_payload from_qr
    parse_qr_payload trim_space order_by
downloaded = refl

download_batch-Downloads_example :
    Downloads env (some record_codec) excelize value rows_db "b1" "u1" (1 ∷ [])
download_batch-Downloads_example =
    download_batch-Downloads excelize value generator env (some record_codec) "b1" "u1" rows_db
      (1 ∷ []) laws downloaded
