-- ===== src/Gateway/Handlers/Diplomas.antt =====
-- The handlers BatchStatus, Download and Revoke of gateway-service/internal/transport/http/handler/
-- diplomas.go, with DownloadBatch of internal/service/diplomas.go.
pub mod Downloaded
use diasoft.Prelude.{String, Option, List, Result, ◌>>=◌, is_empty, if◌then◌else◌}
use diasoft.Gateway.Model.{Error}
use diasoft.Gateway.Payload.{RecordCodec}
use diasoft.Gateway.Store.{Db, Env}
use diasoft.Gateway.Http.{Response, http_error, answered}
use diasoft.Gateway.Access.{Ctx}
use diasoft.Gateway.Batches.{BatchView, get_batch, mark_diploma_revoked}
use diasoft.Gateway.Batches.Listing.{DownloadRow, get_batch_download_rows}
use diasoft.Gateway.Sealing.{Bytes}
use diasoft.Gateway.Handlers.{
  respond_with, respond_call, internal, as_university, as_university_reading,
}

unfoldable pub batch_status : Env → Ctx → String → Db → Response BatchView
batch_status env ctx batch_id db = as_university_reading ctx λ vuz_id.
    let found =
      respond_with (λ b. answered 200 b) (λ _. http_error 404 "batch not found")
        (get_batch env batch_id vuz_id db) in
    if is_empty batch_id then http_error 400 "missing batch id" else found

-- `build_batch` is BuildBatch of the generator of Excel files.
unfoldable pub download_batch :
    (List DownloadRow → Result Error Bytes)
    → Env
    → Option RecordCodec
    → String
    → String
    → Db
    → Result Error Bytes
download_batch build_batch env codec batch_id vuz_id db = do
  rows ← get_batch_download_rows env codec batch_id vuz_id db
  build_batch rows

unfoldable pub download :
    (List DownloadRow → Result Error Bytes)
    → Env
    → Option RecordCodec
    → Ctx
    → String
    → Db
    → Response Bytes
unfolding download_batch
download build_batch env codec ctx batch_id db = as_university_reading ctx λ vuz_id.
    let built =
      respond_with (λ file. answered 200 file) (internal "failed to build excel file")
        (download_batch build_batch env codec batch_id vuz_id db) in
    if is_empty batch_id then http_error 400 "missing batch id" else built

-- The answer is the hash, with the status "revoked".
unfoldable pub revoke : Env → Ctx → String → Db → Response String × Db
revoke env ctx hash = as_university ctx λ vuz_id db.
    let done =
      respond_call (λ _. answered 200 hash) (λ _. http_error 404 "diploma not found")
        (mark_diploma_revoked env vuz_id hash db) in
    if is_empty hash then (http_error 400 "missing diploma hash", db) else done
