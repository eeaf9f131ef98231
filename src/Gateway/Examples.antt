-- ===== src/Gateway/Examples.antt =====
-- Data for the tests of the gateway.
mod Registry
mod Sharing
pub mod Entry
mod Uploads
mod Keys
pub mod Lists
mod Files
mod Removals
mod Answers
mod Demo
use diasoft.Prelude.{
  ℕ, ◌*◌, String, Option, none, some, List, [], ◌∷◌, Bool, false, Result, ok, err, ◌==◌, Eq-string,
  if◌then◌else◌, ℤ, pos, ◌++◌,
}
use diasoft.Gateway.Model.{
  Error, no_rows, processing, active, revoked, UploadRecord, ProcessingResult, ParsedQr,
}
use diasoft.Gateway.Payload.{RecordCodec}
use diasoft.Gateway.Store.{BatchRow, HashRow, UniversityRow, Db, Env}

abbrev pub institution : UniversityRow
institution = record { id = "u1"; name = "University"; vuz_code = "V1"; public_key = some "key" }

abbrev pub empty_db : Db
empty_db = record {
  universities = institution ∷ [];
  batches = [];
  payloads = [];
  results = [];
  hashes = [];
  links = [];
}

abbrev pub sample_qr : ParsedQr
sample_qr = record {
  diploma_hash = "h1";
  vuz_id = "u1";
  issued_at = pos 1;
  full_name = "Ada";
  student_name = "";
  diploma_number = "D-1";
  specialty = "Maths";
  degree = "BSc";
  faculty = "Science";
  year = pos 2020;
  salt = "salt";
}

abbrev read_any : String → Result Error ParsedQr
read_any payload = ok sample_qr

abbrev pub env : Env
env = record { now = 100; new_id = "b1"; down = λ _. false; decoder = some read_any }

abbrev pub upload_record : UploadRecord
upload_record = record {
  full_name = "Ada";
  diploma_number = "D-1";
  specialty = "Maths";
  degree = "BSc";
  faculty = "Science";
  year = pos 2020;
  raw_csv_row = "Ada,D-1";
}

-- A cipher for one text.
abbrev pub record_codec : RecordCodec
record_codec = record {
  seal = λ text. if text == "json" then ok "xjson" else err no_rows;
  opened = λ text. ok "json";
  marshal = λ r. "json";
  unmarshal = λ text. ok (record upload_record { raw_csv_row = "" });
}

abbrev pub pending_batch : BatchRow
pending_batch = record {
  id = "b1";
  vuz_id = "u1";
  status = processing;
  total_records = 1;
  processed_records = 0;
  created_at = 100;
  completed_at = none;
}

abbrev pub batch_db : Db
batch_db = record empty_db { batches = pending_batch ∷ [] }

abbrev pub message : ProcessingResult
message = record {
  batch_id = "b1";
  vuz_id = "u1";
  record_index = pos 0;
  diploma_hash = "h1";
  qr_payload = some "qr";
  status = "ok";
  error = none;
}

abbrev pub revoked_row : HashRow
revoked_row = record {
  hash = "h1";
  vuz_id = "u1";
  diploma_number = "D-1";
  status = revoked;
  created_at = 1;
  revoked_at = some 2;
}
