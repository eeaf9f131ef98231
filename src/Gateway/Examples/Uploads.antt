-- ===== src/Gateway/Examples/Uploads.antt =====
-- The theorems on uploads and on the consumer at one record.
use diasoft.Prelude.{
  ℕ, ◌<◌, String, ◌≡◌, refl, ◌⊎◌, Option, none, some, List, [], ◌∷◌, Bool, true, false, Result, ok,
  err, find, length, pos, trim_space, parse_int64, All, ◌==◌, Eq-string, if◌then◌else◌, arith,
}
use diasoft.Gateway.Model.{driver, processing, UploadRecord, ProcessingResult}
use diasoft.Gateway.Payload.{encode_batch_record_payload}
use diasoft.Gateway.Store.{Db, Env, transact}
use diasoft.Gateway.Results.{apply_processing_result}
use diasoft.Gateway.Batches.{insert_payloads, create_batch_with_records}
use diasoft.Gateway.Batches.Created.{Creates}
use diasoft.Gateway.Consumer.{Message, Event, fetched, fetch_failed, Consumer, start}
use diasoft.Gateway.Consumer.Commits.{IsSettled, start-AllSettled, start_skip}
use diasoft.Gateway.Csv.{
  Columns, normalize_csv_header, column, columns_of, row_record, row_records, header_index,
  parse_csv,
}
use diasoft.Gateway.Csv.Reads.{HasColumns, AreRows, parse_csv-AreRows}
use diasoft.Gateway.Upload.{RawTask, Service, Uploaded, raw_tasks, publish, upload}
use diasoft.Gateway.Upload.Published.{Tasks}
use diasoft.Gateway.Producer.{
  Producer, Message as TaskMessage, messages, publish_raw_tasks, diploma_service,
}
use diasoft.Gateway.Producer.Sent.{Carries, upload-Carries}
use diasoft.Gateway.Examples.{empty_db, env, upload_record, record_codec, batch_db, message}

abbrev decode : String → Option ProcessingResult
decode text = if text == "result" then some message else none

abbrev down_env : Env
down_env = record env { down = λ _. true }

abbrev waiting : Consumer
waiting = record { db = batch_db; committed = [] }

abbrev first_message : Message
first_message = record { offset = 0; value = "result" }

abbrev bad_message : Message
bad_message = record { offset = 1; value = "{" }

abbrev events : List Event
events = fetch_failed ∷ fetched env first_message true ∷ fetched env bad_message true ∷ []

start-AllSettled_example :
    All (IsSettled decode (start decode events waiting).db) (start decode events waiting).committed
start-AllSettled_example = start-AllSettled decode events waiting tt

apply_fails : (apply_processing_result down_env message batch_db).0 ≡ err driver
unfolding apply_processing_result transact
apply_fails = refl

start_skip_example :
    start decode (fetched down_env first_message true ∷ fetched env bad_message true ∷ []) waiting
    ≡ start decode (fetched env bad_message true ∷ []) waiting
start_skip_example =
    start_skip decode down_env first_message true (fetched env bad_message true ∷ []) waiting
      message driver refl apply_fails

abbrev header : List String
header = "full_name" ∷ "diploma_number" ∷ "specialty" ∷ "degree" ∷ "faculty" ∷ " year" ∷ []

abbrev row : List String
row = "Ada" ∷ "D-1 " ∷ "Maths" ∷ "BSc" ∷ "Science" ∷ "2020" ∷ []

abbrev csv_record : UploadRecord
csv_record = record upload_record { raw_csv_row = "Ada,D-1 ,Maths,BSc,Science,2020" }

parsed : parse_csv (some (header ∷ row ∷ [])) ≡ ok (csv_record ∷ [])
unfolding parse_csv columns_of column header_index normalize_csv_header row_records row_record
    trim_space parse_int64 diasoft.Prelude.join
parsed = refl

parse_csv-AreRows_example :
    (0 < length (csv_record ∷ []))
    × (c : Columns) × HasColumns header c
    × AreRows c (row ∷ []) (csv_record ∷ [])
parse_csv-AreRows_example = parse_csv-AreRows header (row ∷ []) (csv_record ∷ []) parsed

abbrev producer : Producer
producer = record {
  marshal = λ task. ok (task.record_index ∷ []);
  write_messages = λ messages. ok tt;
}

abbrev service : Service
service = diploma_service (some record_codec) producer

abbrev uploaded : Uploaded
uploaded = record { batch_id = "b1"; status = processing }

abbrev uploaded_db : Db
uploaded_db =
    (create_batch_with_records env (some record_codec) "u1" (upload_record ∷ []) empty_db).1

uploads : upload service env "u1" (upload_record ∷ []) empty_db ≡ (ok uploaded, uploaded_db)
unfolding upload publish raw_tasks publish_raw_tasks messages create_batch_with_records
    insert_payloads encode_batch_record_payload transact
uploads = refl

upload-Carries_example :
    Creates env (some record_codec) "u1" (upload_record ∷ []) empty_db uploaded_db
    × ("b1" ≡ env.new_id)
    × (tasks : List RawTask) × Tasks env.new_id "u1" 1 0 (upload_record ∷ []) tasks
    × (ms : List TaskMessage) × Carries producer tasks ms
    × (producer.write_messages ms ≡ ok tt)
upload-Carries_example =
    upload-Carries (some record_codec) producer env "u1" (upload_record ∷ []) empty_db uploaded
      uploaded_db uploads
