-- ===== src/Gateway/Batches/Listing/Rows.antt =====
-- What the lists of batches and of their rows hold.
use diasoft.Prelude.{
  String, ◌≡◌, refl, ap, ◌∙◌, Option, List, [], ◌∷◌, Bool, true, false, not, ◌&&◌, ok, bind-ok, ℤ,
  pos, negsuc, ltb_ℤ, any, count, select, take, map, order_by, Eq-string, Eq-int, Eq-nat,
  if◌then◌else◌, arith, IsOrdered, order_by-IsOrdered, count-order_by, count-select,
}
use diasoft.Gateway.Payload.{RecordCodec}
use diasoft.Gateway.Store.{BatchRow, ResultRow, Db, Env}
use diasoft.Gateway.Store.Tables.{of_batch}
use diasoft.Gateway.Batches.{BatchView}
use diasoft.Gateway.Batches.Listing.Told.{Tells, download_row-Tells}
use diasoft.Gateway.Batches.Listing.{
  newer, is_owned_by, view, limit_or, list_batches, DownloadRow, download_row, each_row,
  index_before, is_batch_of, rows_of_batch, get_batch_download_rows,
}

-- Two lists that agree row by row.
abbrev pub ShowsAll : Env → Option RecordCodec → Db → List ResultRow → List DownloadRow → Type 0
ShowsAll env codec db [] [] = Unit
ShowsAll env codec db [] (d ∷ ds) = ⊥
ShowsAll env codec db (r ∷ rs) [] = ⊥
ShowsAll env codec db (r ∷ rs) (d ∷ ds) = Tells env codec db r d × ShowsAll env codec db rs ds

int_total : (a b : ℤ) → not (ltb_ℤ b a) ≡ false → not (ltb_ℤ a b) ≡ true
int_total (pos a) (pos b) h = ground arith
int_total (pos a) (negsuc b) h = ground arith
int_total (negsuc a) (pos b) h = ground arith
int_total (negsuc a) (negsuc b) h = ground arith

module _ (env : Env) (codec : Option RecordCodec) (db : Db) where
  each_row-ShowsAll :
      (rs : List ResultRow) (ds : List DownloadRow)
      → each_row env codec db rs ≡ ok ds
      → ShowsAll env codec db rs ds
  unfolding each_row
  each_row-ShowsAll [] [] h = tt
  each_row-ShowsAll [] (d ∷ ds) h = absurd (ground arith)
  each_row-ShowsAll (r ∷ rs) ds h =
      let (d, shown, more) = bind-ok (download_row env codec db r) _ h in
      let (es, rest, last) = bind-ok (each_row env codec db rs) _ more in
      let e : d ∷ es ≡ ds = ground arith in
      rw (← e) (download_row-Tells env codec db r d shown, each_row-ShowsAll rs es rest)

index_total : (a b : ResultRow) → index_before a b ≡ false → index_before b a ≡ true
index_total a b h = int_total a.record_index b.record_index h

IsOrdered-if :
    (b : Bool) (rs : List ResultRow)
    → IsOrdered index_before rs
    → IsOrdered index_before (if b then rs else [])
IsOrdered-if true rs s = s
IsOrdered-if false rs s = tt

counted_if :
    (p : ResultRow → Bool) (b : Bool) (rs : List ResultRow)
    → count p (if b then rs else []) ≡ (if b then count p rs else 0)
counted_if p true rs = refl
counted_if p false rs = refl

-- The rows that a university downloads for a batch of its own are those of the batch's results, each once, in the
-- order of their index, with its hash, its error, and the status of the diploma in place of the row's where the row
-- is no error and the diploma is registered; for a batch of another university, or none, there are no rows.
pub get_batch_download_rows-ShowsAll :
    (env : Env) (codec : Option RecordCodec) (batch_id vuz_id : String) (db : Db)
    (ds : List DownloadRow)
    → get_batch_download_rows env codec batch_id vuz_id db ≡ ok ds
    → (rs : List ResultRow) × ShowsAll env codec db rs ds
      × IsOrdered index_before rs
      × ((p : ResultRow → Bool)
          → count p rs ≡ (
              if any (is_batch_of batch_id vuz_id) db.batches
              then count (λ r. of_batch batch_id r && p r) db.results
              else 0))
unfolding get_batch_download_rows
get_batch_download_rows-ShowsAll env codec batch_id vuz_id db ds h =
    let rs = rows_of_batch batch_id vuz_id db in
    let owned = any (is_batch_of batch_id vuz_id) db.batches in
    let all_rows = order_by index_before (select (of_batch batch_id) db.results) in
    let sorted =
      order_by-IsOrdered index_before index_total (select (of_batch batch_id) db.results) in
    (
      rs,
      each_row-ShowsAll env codec db rs ds (ground arith),
      IsOrdered-if owned all_rows sorted,
      λ p.
          counted_if p owned all_rows
          ∙ ap (λ n. if owned then n else 0)
              (count-order_by index_before p (select (of_batch batch_id) db.results)
                ∙ count-select p (of_batch batch_id) db.results),
    )

newer_total : (a b : BatchRow) → newer a b ≡ false → newer b a ≡ true
newer_total a b h = ground arith

-- The list of batches is the front part of the university's batches, each once, from the newest on: at most as
-- many as the limit, or 20 if that is not positive.
pub list_batches-newest :
    (env : Env) (vuz_id : String) (limit : ℤ) (db : Db) (vs : List BatchView)
    → list_batches env vuz_id limit db ≡ ok vs
    → (bs : List BatchRow) × (vs ≡ map (view db) (take (limit_or 20 limit) bs))
      × IsOrdered newer bs
      × ((p : BatchRow → Bool) → count p bs ≡ count (λ b. is_owned_by vuz_id b && p b) db.batches)
unfolding list_batches
list_batches-newest env vuz_id limit db vs h =
    let owned = select (is_owned_by vuz_id) db.batches in
    (
      order_by newer owned,
      ground arith,
      order_by-IsOrdered newer newer_total owned,
      λ p. count-order_by newer p owned ∙ count-select p (is_owned_by vuz_id) db.batches,
    )
