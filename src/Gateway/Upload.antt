-- ===== src/Gateway/Upload.antt =====
-- DiplomaService.Upload of gateway-service/internal/service/diplomas.go, and the upload handler of
-- internal/transport/http/handler/diplomas.go.
pub mod Published
use Prim.Native.String
use diasoft.Prelude.{
  contains, ℕ, suc, ◌≡◌, code, String, Option, none, some, List, [], ◌∷◌, Bool, true, false, not,
  ◌&&◌, ◌||◌, Result, ok, err, all, length, is_empty, ◌==◌, Eq-string, Eq-nat, if◌then◌else◌,
}
use diasoft.Gateway.Model.{Error, message, BatchStatus, UploadRecord}
use diasoft.Gateway.Payload.{RecordCodec}
use diasoft.Gateway.Store.{BatchRow, Db, Env}
use diasoft.Gateway.Batches.{create_batch_with_records, fail_batch}
use diasoft.Gateway.Access.{Ctx}
use diasoft.Gateway.Csv.{needed, parse_csv}

-- KafkaRawTask; `created_at` is the time before it is formatted.
pub record RawTask : Type 0 where
  pub batch_id : String
  pub vuz_id : String
  pub record_index : ℕ
  pub total_in_batch : ℕ
  pub created_at : ℕ
  pub student : UploadRecord

-- The loop over the records, from the given index on.
unfoldable pub raw_tasks : String → String → ℕ → ℕ → ℕ → List UploadRecord → List RawTask
raw_tasks batch_id vuz_id total now index [] = []
raw_tasks batch_id vuz_id total now index (r ∷ rs) =
    record {
      batch_id = batch_id;
      vuz_id = vuz_id;
      record_index = index;
      total_in_batch = total;
      created_at = now;
      student = r;
    }
    ∷ raw_tasks batch_id vuz_id total now (suc index) rs

-- The repository with its cipher, and PublishRawTasks of the producer.
pub record Service : Type 0 where
  pub codec : Option RecordCodec
  pub publish_raw_tasks : List RawTask → Result Error Unit

pub record Uploaded : Type 0 where
  pub batch_id : String
  pub status : BatchStatus

-- What follows the creation of the batch.
unfoldable pub publish :
    Service → Env → String → List UploadRecord → BatchRow → Db → Result Error Uploaded × Db
publish s env vuz_id records b db =
    elim (s.publish_raw_tasks (raw_tasks b.id vuz_id (length records) env.now 0 records)) [
      | ok _ ↦ (ok (record { batch_id = b.id; status = b.status }), db)
      | err e ↦ (err e, (fail_batch env b.id db).1)
    ]

abbrev pub after_creation :
    Service
    → Env
    → String
    → List UploadRecord
    → Result Error BatchRow × Db
    → Result Error Uploaded × Db
after_creation s env vuz_id records (err e, db) = (err e, db)
after_creation s env vuz_id records (ok b, db) = publish s env vuz_id records b db

unfoldable pub upload : Service → Env → String → List UploadRecord → Db → Result Error Uploaded × Db
upload s env vuz_id records db =
    after_creation s env vuz_id records (create_batch_with_records env s.codec vuz_id records db)

-- A request, as its body reads for each kind of content: the JSON if it decodes, whether the form is
-- read and its file there, and the rows of CSV if they are read.
pub record Request : Type 0 where
  pub media_type : String
  pub diplomas : Option (List UploadRecord)
  pub form : Bool
  pub file : Bool
  pub rows : Option (List (List String))

abbrev pub of_json : Option (List UploadRecord) → Result Error (List UploadRecord)
of_json none = err (message "invalid json payload")
of_json (some []) = err (message "diplomas payload is empty")
of_json (some (r ∷ rs)) = ok (r ∷ rs)

abbrev of_form : Request → Result Error (List UploadRecord)
of_form q =
    if not q.form
    then err (message "failed to parse multipart form")
    else if not q.file
    then err (message "csv file is required in form field 'file'")
    else parse_csv q.rows

abbrev is_csv : String → Bool
is_csv media =
    media == "text/csv"
    || media == "application/csv"
    || media == "application/vnd.ms-excel"
    || contains media "csv"

unfoldable pub parse_records : Request → Result Error (List UploadRecord)
unfolding contains
parse_records q =
    if is_empty q.media_type || q.media_type == "application/json"
    then of_json q.diplomas
    else if q.media_type == "multipart/form-data"
    then of_form q
    else if is_csv q.media_type
    then parse_csv q.rows
    else err (message "unsupported content type")

pub data Response : Type 0 where
  http_error : ℕ → Response
  accepted : Uploaded → Response

abbrev respond : Result Error Uploaded × Db → Response × Db
respond (ok u, db) = (accepted u, db)
respond (err e, db) = (http_error 500, db)

-- The records that are parsed are checked one by one; `valid` is the validator.
abbrev checked_upload :
    Service
    → Env
    → (UploadRecord → Bool)
    → String
    → Result Error (List UploadRecord)
    → Db
    → Response × Db
checked_upload s env valid vuz_id (err e) db = (http_error 400, db)
checked_upload s env valid vuz_id (ok records) db =
    let done = respond (upload s env vuz_id records db) in
    if all valid records then done else (http_error 400, db)

-- The handler behind the guard of the diploma routes.
unfoldable pub upload_route :
    Service → Env → (UploadRecord → Bool) → Ctx → Request → Db → Response × Db
unfolding upload
upload_route s env valid ctx q db = elim ctx.university_id [
  | none ↦ (http_error 401, db)
  | some vuz_id ↦ checked_upload s env valid vuz_id (parse_records q) db
]
