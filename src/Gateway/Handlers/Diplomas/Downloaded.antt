-- ===== src/Gateway/Handlers/Diplomas/Downloaded.antt =====
-- What the file of a batch shows that a university downloads.
use diasoft.Prelude.{
  not, ltb_ℤ, ◌==◌, Eq-string, String, Option, List, Bool, ◌&&◌, count, any, ok, ◌≡◌, bind-ok,
  if◌then◌else◌,
}
use diasoft.Prelude.{IsOrdered}
use diasoft.Gateway.Payload.{RecordCodec}
use diasoft.Gateway.Store.{Db, Env, ResultRow}
use diasoft.Gateway.Batches.Listing.{DownloadRow, get_batch_download_rows}
use diasoft.Gateway.Batches.Listing.Rows.{ShowsAll, get_batch_download_rows-ShowsAll}
use diasoft.Gateway.Sealing.{Bytes}
use diasoft.Gateway.Excel.{Value, Excelize, Generator, build_batch}
use diasoft.Gateway.Excel.Kept.{CellLaws}
use diasoft.Gateway.Excel.Cells.{Shows, build_batch-Shows}
use diasoft.Gateway.Handlers.Diplomas.{download_batch}

-- The file is written from a workbook whose sheet shows, under the titles, the results of the batch,
-- each once and in the order of their indices; and none where the batch is not the university's.
pub record Downloads {File : Type 0} (env : Env) (codec : Option RecordCodec) (x : Excelize File)
    (value : File → String → Option Value) (db : Db) (batch_id vuz_id : String) (bytes : Bytes)
    : Type 0 where
  pub rows : List ResultRow
  pub shown : List DownloadRow
  pub workbook : File
  pub written : x.write_to_buffer workbook ≡ ok bytes
  pub in_cells : Shows x value shown workbook
  pub row_by_row : ShowsAll env codec db rows shown
  pub in_order : IsOrdered (λ a b. not (ltb_ℤ b.record_index a.record_index)) rows
  pub each_once :
      (p : ResultRow → Bool)
      → count p rows ≡ (
          if any (λ b. b.id == batch_id && b.vuz_id == vuz_id) db.batches
          then count (λ r. r.batch_id == batch_id && p r) db.results
          else 0)

-- If excelize keeps the laws of its cells, the file that a university downloads for a batch is written
-- from a workbook whose sheet shows, under the titles and as far as a cell can hold it, the results of the batch, each
-- once and in the order of their indices, and none where the batch is not the university's: the index, the hash
-- and the error of each, its status or for an accepted one that of its diploma, and the data of the sealed record with
-- its index, or where there is none of its QR payload.
pub download_batch-Downloads :
    {File : Type 0} (x : Excelize File) (value : File → String → Option Value) (g : Generator)
    (env : Env) (codec : Option RecordCodec) (batch_id vuz_id : String) (db : Db) (bytes : Bytes)
    → CellLaws x value
    → download_batch (build_batch x g) env codec batch_id vuz_id db ≡ ok bytes
    → Downloads env codec x value db batch_id vuz_id bytes
unfolding download_batch
download_batch-Downloads x value g env codec batch_id vuz_id db bytes laws h =
    let (ds, found, built) =
      bind-ok (get_batch_download_rows env codec batch_id vuz_id db) (build_batch x g) h in
    let (f, written, cells) = build_batch-Shows x value g ds bytes laws built in
    let (rs, each, ordered, counted) =
      get_batch_download_rows-ShowsAll env codec batch_id vuz_id db ds found in
    record {
      rows = rs;
      shown = ds;
      workbook = f;
      written = written;
      in_cells = cells;
      row_by_row = each;
      in_order = ordered;
      each_once = counted;
    }
