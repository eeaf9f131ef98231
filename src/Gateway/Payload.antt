-- ===== src/Gateway/Payload.antt =====
-- gateway-service/internal/repository/postgres/record_payload.go: an uploaded record is stored as
-- JSON, sealed by the cipher.
use diasoft.Prelude.{
  String, ◌≡◌, Option, none, some, Result, ok, err, ◌>>=◌, blank, if◌then◌else◌, false, arith,
}
use diasoft.Gateway.Model.{Error, message, UploadRecord}

-- The interface RecordPayloadCipher over texts, and encoding/json at UploadRecord. The tag "-" keeps
-- `raw_csv_row` out of the JSON.
pub record RecordCodec : Type 0 where
  pub seal : String → Result Error String
  pub opened : String → Result Error String
  pub marshal : UploadRecord → String
  pub unmarshal : String → Result Error UploadRecord

abbrev pub without_row : UploadRecord → UploadRecord
without_row r = record r { raw_csv_row = "" }

not_configured : Error
not_configured = message "record payload cipher is not configured"

unfoldable pub encode_batch_record_payload : Option RecordCodec → UploadRecord → Result Error String
unfolding not_configured
encode_batch_record_payload none r = err not_configured
encode_batch_record_payload (some c) r = c.seal (c.marshal (without_row r))

-- The Go function returns a nil record for a blank text.
unfoldable pub decode_batch_record_payload :
    Option RecordCodec → String → Result Error (Option UploadRecord)
unfolding not_configured
decode_batch_record_payload none value = if blank value then ok none else err not_configured
decode_batch_record_payload (some c) value =
    if blank value then ok none else do text ← c.opened value; r ← c.unmarshal text; ok (some r)

-- The record that is read back from a stored payload is the record that was stored, less its CSV
-- row, if the cipher opens what it sealed, seals into no blank text, and JSON reads back the record.
pub decode-encode :
    (c : RecordCodec) (r : UploadRecord) (value : String)
    → ((text sealed : String) → c.seal text ≡ ok sealed → c.opened sealed ≡ ok text)
    → ((text sealed : String) → c.seal text ≡ ok sealed → blank sealed ≡ false)
    → c.unmarshal (c.marshal (without_row r)) ≡ ok (without_row r)
    → encode_batch_record_payload (some c) r ≡ ok value
    → decode_batch_record_payload (some c) value ≡ ok (some (without_row r))
unfolding encode_batch_record_payload decode_batch_record_payload
decode-encode c r value opens nonblank reads h =
    let text = c.marshal (without_row r) in
    ground (arith, opens text value h, nonblank text value h, reads)
