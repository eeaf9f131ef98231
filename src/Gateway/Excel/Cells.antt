-- ===== src/Gateway/Excel/Cells.antt =====
-- What the cells of the file of a batch hold.
use diasoft.Prelude.{
  refl, none, Option, true, ℕ, zero, suc, ◌+◌, String, List, [], ◌∷◌, Option, some, ok, ◌≡◌, ap,
  ◌∙◌, map, get_elem?, bind-ok, arith,
}
use diasoft.Gateway.Sealing.{Bytes}
use diasoft.Gateway.Batches.Listing.{DownloadRow}
use diasoft.Gateway.Excel.{
  Value, number, text, value_or_empty, Excelize, Generator, sheet_name, headers, values,
  header_style, body_style, center_style, set_values, set_styles, add_qr, write_rows, write_header,
  build_batch,
}
use diasoft.Gateway.Excel.Kept.{
  CellLaws, fits_in_cell, Keeps-bind, set_values-Keeps, set_styles-Keeps, add_qr-Keeps,
  set_widths-Keeps, write_rows-Keeps,
}

module _ {File : Type 0} (x : Excelize File) (value : File → String → Option Value)
    (laws : CellLaws x value) where
  set_values_lem :
      (row column : ℕ) (vs : List Value) (f f' : File)
      → set_values x row column vs f ≡ ok f'
      → (j : ℕ) (v : Value) → get_elem? vs j ≡ some v
      → fits_in_cell v ≡ true
      → value f' (x.cell_name (column + j) row) ≡ some v
  unfolding set_values
  set_values_lem row column [] f f' h j v at fits = absurd (ground arith)
  set_values_lem row column (w ∷ vs) f f' h zero v at fits =
      let (mid, a, b) =
        bind-ok (x.set_cell_value sheet_name (x.cell_name column row) w f)
          (set_values x row (suc column) vs) h in
      let here : column + 0 ≡ column = omega arith in
      let same : w ≡ v = ground arith in
      ap (λ c. value f' (x.cell_name c row)) here
      ∙ set_values-Keeps x value laws row (suc column) vs column row
          (λ i e. absurd (omega (arith, e))) mid f' b
      ∙ laws.set_same _ w f mid a (ap fits_in_cell same ∙ fits)
      ∙ at
  set_values_lem row column (w ∷ vs) f f' h (suc j) v at fits =
      let (mid, a, b) =
        bind-ok (x.set_cell_value sheet_name (x.cell_name column row) w f)
          (set_values x row (suc column) vs) h in
      let there : column + suc j ≡ suc column + j = omega arith in
      ap (λ c. value f' (x.cell_name c row)) there
      ∙ set_values_lem row (suc column) vs mid f' b j v at fits

  write_rows_lem :
      (g : Generator) (body center row : ℕ) (rs : List DownloadRow) (f f' : File)
      → write_rows x g body center row rs f ≡ ok f'
      → (i j : ℕ) (r : DownloadRow) (v : Value) → get_elem? rs i ≡ some r
      → get_elem? (values r) j ≡ some v
      → fits_in_cell v ≡ true
      → value f' (x.cell_name (1 + j) (row + i)) ≡ some v
  unfolding write_rows
  write_rows_lem g body center row [] f f' h i j r v at field fits = absurd (ground arith)
  write_rows_lem g body center row (q ∷ rs) f f' h zero j r v at field fits =
      let (f1, a, after) = bind-ok (set_values x row 1 (values q) f) _ h in
      let d = x.cell_name (1 + j) row in
      let kept =
        Keeps-bind x value laws d _ _ (set_styles-Keeps x value laws body center row d)
          (Keeps-bind x value laws d _ _ (add_qr-Keeps x value laws g row q.qr_payload d)
            (write_rows-Keeps x value laws g body center (suc row) rs (1 + j) row (omega arith)))
          f1 f' after in
      let same : q ≡ r = ground arith in
      let here : row + 0 ≡ row = omega arith in
      ap (λ n. value f' (x.cell_name (1 + j) n)) here
      ∙ kept
      ∙ set_values_lem row 1 (values q) f f1 a j v (ap (λ z. get_elem? (values z) j) same ∙ field)
          fits
  write_rows_lem g body center row (q ∷ rs) f f' h (suc i) j r v at field fits =
      let (f1, _, h1) = bind-ok (set_values x row 1 (values q) f) _ h in
      let (f2, _, h2) = bind-ok (set_styles x body center row f1) _ h1 in
      let (f3, _, h3) = bind-ok (add_qr x g row q.qr_payload f2) _ h2 in
      let there : row + suc i ≡ suc row + i = omega arith in
      ap (λ n. value f' (x.cell_name (1 + j) n)) there
      ∙ write_rows_lem g body center (suc row) rs f3 f' h3 i j r v at field fits

  write_header_lem :
      (g : Generator) (header : ℕ) (f f' : File)
      → write_header x g header f ≡ ok f'
      → (j : ℕ) (v : Value) → get_elem? (map text headers) j ≡ some v
      → fits_in_cell v ≡ true
      → value f' (x.cell_name (1 + j) 1) ≡ some v
  unfolding write_header
  write_header_lem g header f f' h j v at fits =
      let (f1, a, after) = bind-ok (set_values x 1 1 (map text headers) f) _ h in
      let d = x.cell_name (1 + j) 1 in
      Keeps-bind x value laws d _ _ (laws.style_keeps _ _ d header)
        (Keeps-bind x value laws d _ _ (laws.panes_keep _ d) (
          Keeps-bind x value laws d _ _ (laws.height_keeps 1 28 d)
            (set_widths-Keeps x value laws _ d)))
        f1 f' after
      ∙ set_values_lem 1 1 (map text headers) f f1 a j v at fits

-- A cell holds a value, if a cell can.
abbrev pub Holds :
    {File : Type 0} → Excelize File → (File → String → Option Value) → File → ℕ → ℕ → Value → Type 0
Holds x value f column row v = fits_in_cell v ≡ true → value f (x.cell_name column row) ≡ some v

-- The row of a result in the cells of a row, from the first column on.
pub record HasCells {File : Type 0} (x : Excelize File) (value : File → String → Option Value)
    (f : File) (row : ℕ) (r : DownloadRow) : Type 0 where
  pub index : Holds x value f 1 row (number r.record_index)
  pub hash : Holds x value f 2 row (text r.diploma_hash)
  pub full_name : Holds x value f 3 row (text r.full_name)
  pub diploma_number : Holds x value f 4 row (text r.diploma_number)
  pub specialty : Holds x value f 5 row (text r.specialty)
  pub degree : Holds x value f 6 row (text r.degree)
  pub faculty : Holds x value f 7 row (text r.faculty)
  pub year : Holds x value f 8 row (number r.year)
  pub status : Holds x value f 9 row (text r.status)
  pub error : (e : String) → r.error ≡ some e → Holds x value f 10 row (text e)
  pub no_error : r.error ≡ none → Holds x value f 10 row (text "")

pub record HasTitles {File : Type 0} (x : Excelize File) (value : File → String → Option Value)
    (f : File) : Type 0 where
  pub index : Holds x value f 1 1 (text "№ записи")
  pub hash : Holds x value f 2 1 (text "Хеш диплома")
  pub full_name : Holds x value f 3 1 (text "ФИО")
  pub diploma_number : Holds x value f 4 1 (text "Номер диплома")
  pub specialty : Holds x value f 5 1 (text "Специальность")
  pub degree : Holds x value f 6 1 (text "Степень")
  pub faculty : Holds x value f 7 1 (text "Факультет")
  pub year : Holds x value f 8 1 (text "Год")
  pub status : Holds x value f 9 1 (text "Статус")
  pub error : Holds x value f 10 1 (text "Ошибка")
  pub qr : Holds x value f 11 1 (text "QR-код")

-- The titles stand in the first row, and the rows of the batch below it, in order.
pub record Shows {File : Type 0} (x : Excelize File) (value : File → String → Option Value)
    (rows : List DownloadRow) (f : File) : Type 0 where
  pub titles : HasTitles x value f
  pub cells : (i : ℕ) (r : DownloadRow) → get_elem? rows i ≡ some r → HasCells x value f (2 + i) r

-- If excelize keeps the laws of its cells, the file that BuildBatch gives is written from a workbook
-- whose sheet has the titles in its first row and below them every row of the batch in order, each
-- field that a cell can hold under its title.
pub build_batch-Shows :
    {File : Type 0} (x : Excelize File) (value : File → String → Option Value) (g : Generator)
    (rows : List DownloadRow) (bytes : Bytes)
    → CellLaws x value
    → build_batch x g rows ≡ ok bytes
    → (f : File) × (x.write_to_buffer f ≡ ok bytes) × Shows x value rows f
unfolding build_batch
build_batch-Shows {File} x value g rows bytes laws h =
    let named = x.set_sheet_name "Sheet1" sheet_name x.new_file in
    let ((header, f1), _, h1) = bind-ok (x.new_style header_style named) _ h in
    let ((body, f2), _, h2) = bind-ok (x.new_style body_style f1) _ h1 in
    let ((center, f3), _, h3) = bind-ok (x.new_style center_style f2) _ h2 in
    let (f4, titled, h4) = bind-ok (write_header x g header f3) _ h3 in
    let (f5, written, saved) = bind-ok (write_rows x g body center 2 rows f4) _ h4 in
    let title : (j : ℕ) (v : Value)
        → get_elem? (map text headers) j ≡ some v
        → Holds x value f5 (1 + j) 1 v =
      λ j v at fits.
        write_rows-Keeps x value laws g body center 2 rows (1 + j) 1 (omega arith) f4 f5 written
        ∙ write_header_lem x value laws g header f3 f4 titled j v at fits in
    let cell : (i j : ℕ) (r : DownloadRow) (v : Value)
        → get_elem? rows i ≡ some r
        → get_elem? (values r) j ≡ some v
        → Holds x value f5 (1 + j) (2 + i) v =
      λ i j r v at field fits.
        write_rows_lem x value laws g body center 2 rows f4 f5 written i j r v at field fits in
    (
      f5,
      saved,
      record {
        titles = record {
          index = title 0 _ refl;
          hash = title 1 _ refl;
          full_name = title 2 _ refl;
          diploma_number = title 3 _ refl;
          specialty = title 4 _ refl;
          degree = title 5 _ refl;
          faculty = title 6 _ refl;
          year = title 7 _ refl;
          status = title 8 _ refl;
          error = title 9 _ refl;
          qr = title 10 _ refl;
        };
        cells = λ i r at. record {
          index = cell i 0 r _ at refl;
          hash = cell i 1 r _ at refl;
          full_name = cell i 2 r _ at refl;
          diploma_number = cell i 3 r _ at refl;
          specialty = cell i 4 r _ at refl;
          degree = cell i 5 r _ at refl;
          faculty = cell i 6 r _ at refl;
          year = cell i 7 r _ at refl;
          status = cell i 8 r _ at refl;
          error =
              λ e given. cell i 9 r (text e) at (ap (λ o. some (text (value_or_empty o))) given);
          no_error =
              λ missing. cell i 9 r (text "") at (ap (λ o. some (text (value_or_empty o))) missing);
        };
      },
    )
