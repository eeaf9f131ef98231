-- ===== src/Gateway/Model.antt =====
-- gateway-service/internal/model, and the errors of internal/service/errors.go. A status that the
-- database checks to be one of a few words is an enumeration; one that comes from outside is text.
use diasoft.Prelude.{String, Option, ℤ}

pub data Error : Type 0 where
  -- sql.ErrNoRows
  no_rows : Error
  -- pq.Error with code 23505
  unique_violation : Error
  -- any other refusal of the database: a foreign key, a value out of range
  rejected : Error
  -- a statement that did not reach the database
  driver : Error
  -- errors.New(text), and an error of another library with its text
  message : String → Error
  -- internal/service/errors.go
  invalid_credentials duplicate_entity university_pending university_blocked : Error
  university_inactive diploma_not_found share_link_expired invalid_share_token : Error
  invalid_signing_key signing_key_mismatch signing_key_not_found : Error

pub data BatchStatus : Type 0 where
  processing completed failed : BatchStatus

pub data RowStatus : Type 0 where
  row_ok row_error : RowStatus

pub data DiplomaStatus : Type 0 where
  active revoked : DiplomaStatus

-- DiplomaUploadRecord
pub record UploadRecord : Type 0 where
  pub full_name : String
  pub diploma_number : String
  pub specialty : String
  pub degree : String
  pub faculty : String
  pub year : ℤ
  pub raw_csv_row : String

-- KafkaProcessingResult, without `processed_at`, which nothing reads
pub record ProcessingResult : Type 0 where
  pub batch_id : String
  pub vuz_id : String
  pub record_index : ℤ
  pub diploma_hash : String
  pub qr_payload : Option String
  pub status : String
  pub error : Option String

-- security.ParsedQRPayload
pub record ParsedQr : Type 0 where
  pub diploma_hash : String
  pub vuz_id : String
  pub issued_at : ℤ
  pub full_name : String
  pub student_name : String
  pub diploma_number : String
  pub specialty : String
  pub degree : String
  pub faculty : String
  pub year : ℤ
  pub salt : String
