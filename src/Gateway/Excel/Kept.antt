-- ===== src/Gateway/Excel/Kept.antt =====
-- The steps that leave a cell of the file as it is.
use diasoft.Prelude.{
  Bool, true, leb, char_count, ◌*◌, ℕ, suc, ◌+◌, ◌<◌, String, List, [], ◌∷◌, Option, some,
  Bool-cases, Result, ok, ◌>>=◌, ◌≡◌, ◌≢◌, sym, ap, ◌∙◌, inl, inr, is_empty, bind-ok, arith,
}
use diasoft.Gateway.Model.{Error}
use diasoft.Gateway.Batches.Listing.{DownloadRow}
use diasoft.Gateway.Excel.{
  number, text, Value, Panes, Picture, Excelize, Generator, sheet_name, values, picture_of, qr_url,
  set_values, set_widths, set_styles, add_qr, write_rows,
}

-- A number, or a text within the 32767 characters of a cell, if each counts for two.
abbrev pub fits_in_cell : Value → Bool
fits_in_cell (number n) = true
fits_in_cell (text s) = leb (2 * char_count s) 32767

-- What excelize documents of the cells of a sheet, as GetCellValue reads them: a cell holds what it
-- was set to, up to the length of a cell, no other call changes it, a cell that can be set has one name.
pub record CellLaws {File : Type 0} (x : Excelize File) (value : File → String → Option Value)
    : Type 0 where
  pub set_same :
      (c : String) (v : Value) (f f' : File)
      → x.set_cell_value sheet_name c v f ≡ ok f'
      → fits_in_cell v ≡ true
      → value f' c ≡ some v
  pub set_other :
      (c d : String) (v : Value) (f f' : File)
      → x.set_cell_value sheet_name c v f ≡ ok f'
      → c ≢ d
      → value f' d ≡ value f d
  pub named :
      (column row column' row' : ℕ) (v : Value) (f f' : File)
      → x.set_cell_value sheet_name (x.cell_name column row) v f ≡ ok f'
      → x.cell_name column row ≡ x.cell_name column' row'
      → (column ≡ column') × (row ≡ row')
  pub style_keeps :
      (a b d : String) (s : ℕ) (f f' : File)
      → x.set_cell_style sheet_name a b s f ≡ ok f'
      → value f' d ≡ value f d
  pub panes_keep :
      (p : Panes) (d : String) (f f' : File)
      → x.set_panes sheet_name p f ≡ ok f'
      → value f' d ≡ value f d
  pub height_keeps :
      (row height : ℕ) (d : String) (f f' : File)
      → x.set_row_height sheet_name row height f ≡ ok f'
      → value f' d ≡ value f d
  pub width_keeps :
      (a b d : String) (width : ℕ) (f f' : File)
      → x.set_col_width sheet_name a b width f ≡ ok f'
      → value f' d ≡ value f d
  pub picture_keeps :
      (c d : String) (p : Picture) (f f' : File)
      → x.add_picture sheet_name c p f ≡ ok f'
      → value f' d ≡ value f d

module _ {File : Type 0} (x : Excelize File) (value : File → String → Option Value)
    (laws : CellLaws x value) where
  -- A step that leaves a cell as it is.
  abbrev pub Keeps : String → (File → Result Error File) → Type 0
  Keeps d m = (f f' : File) → m f ≡ ok f' → value f' d ≡ value f d

  pub Keeps-bind :
      (d : String) (m k : File → Result Error File)
      → Keeps d m
      → Keeps d k
      → Keeps d (λ f. m f >>= k)
  Keeps-bind d m k first second f f' h =
      let (mid, a, b) = bind-ok (m f) k h in second mid f' b ∙ first f mid a

  Keeps-ok : (d : String) → Keeps d ok
  Keeps-ok d f f' h = ap (λ g. value g d) (sym (ground (arith, h)))

  pub set_values-Keeps :
      (row column : ℕ) (vs : List Value) (column' row' : ℕ)
      → ((i : ℕ) → column + i ≡ column' → row ≢ row')
      → Keeps (x.cell_name column' row') (set_values x row column vs)
  unfolding set_values
  set_values-Keeps row column [] column' row' apart f f' h =
      ap (λ g. value g (x.cell_name column' row')) (sym (ground (arith, h)))
  set_values-Keeps row column (v ∷ vs) column' row' apart f f' h =
      let (mid, a, b) =
        bind-ok (x.set_cell_value sheet_name (x.cell_name column row) v f)
          (set_values x row (suc column) vs) h in
      let other : x.cell_name column row ≢ x.cell_name column' row' = λ same.
        let (c, r) = laws.named column row column' row' v f mid a same in
        apart 0 (omega (arith, c)) r in
      set_values-Keeps row (suc column) vs column' row' (λ i e. apart (suc i) (omega (arith, e)))
        mid f' b
      ∙ laws.set_other _ _ v f mid a other

  pub set_styles-Keeps : (body center row : ℕ) (d : String) → Keeps d (set_styles x body center row)
  unfolding set_styles
  set_styles-Keeps body center row d = Keeps-bind d _ _ (laws.style_keeps _ _ d body) (
      Keeps-bind d _ _ (laws.style_keeps _ _ d center)
        (Keeps-bind d _ _ (laws.style_keeps _ _ d center) (laws.height_keeps row 128 d)))

  pub add_qr-Keeps :
      (g : Generator) (row : ℕ) (payload d : String) → Keeps d (add_qr x g row payload)
  unfolding add_qr
  add_qr-Keeps g row payload d f f' h = elim (Bool-cases (is_empty payload)) [
    | inl none_given ↦ ap (λ f. value f d) (sym (ground (arith, h)))
    | inr given ↦
        let (bytes, a, b) =
          bind-ok (g.png (qr_url g payload) 160)
            (λ bytes. x.add_picture sheet_name (x.cell_name 11 row) (picture_of bytes) f)
            (ground (arith, h)) in
        laws.picture_keeps _ d _ f f' b
  ]

  pub set_widths-Keeps : (ws : List (String × ℕ)) (d : String) → Keeps d (set_widths x ws)
  unfolding set_widths
  set_widths-Keeps [] d = Keeps-ok d
  set_widths-Keeps ((column, width) ∷ ws) d =
      Keeps-bind d _ _ (laws.width_keeps column column d width) (set_widths-Keeps ws d)

  -- The rows leave the cells above them as they are.
  pub write_rows-Keeps :
      (g : Generator) (body center row : ℕ) (rs : List DownloadRow) (column' row' : ℕ)
      → row' < row
      → Keeps (x.cell_name column' row') (write_rows x g body center row rs)
  unfolding write_rows
  write_rows-Keeps g body center row [] column' row' above = Keeps-ok (x.cell_name column' row')
  write_rows-Keeps g body center row (r ∷ rs) column' row' above =
      let d = x.cell_name column' row' in
      Keeps-bind d _ _
        (set_values-Keeps row 1 (values r) column' row'
          (λ i e same. absurd (omega (arith, above, same))))
        (Keeps-bind d _ _ (set_styles-Keeps body center row d) (
          Keeps-bind d _ _ (add_qr-Keeps g row r.qr_payload d)
            (write_rows-Keeps g body center (suc row) rs column' row' (omega (arith, above)))))
