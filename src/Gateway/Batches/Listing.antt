-- ===== src/Gateway/Batches/Listing.antt =====
-- What a university reads of its batches: ListBatches and GetBatchDownloadRows of internal/repository/
-- postgres/diploma_repository.go, with firstNonEmpty of qr_payload.go and firstNonZero.
pub mod Rows
pub mod Told
use diasoft.Prelude.{
  ℕ, zero, suc, String, Option, none, some, List, [], ◌∷◌, Bool, true, false, not, ◌&&◌, ◌||◌,
  Result, ok, err, ◌>>=◌, ℤ, pos, negsuc, ltb, leb, ltb_ℤ, is_positive, is_nonzero, any, find,
  count, select, take, map, order_by, blank, is_empty, ◌==◌, Eq-string, Eq-int, Eq-nat,
  if◌then◌else◌,
}
use diasoft.Gateway.Model.{
  Error, driver, RowStatus, row_ok, row_error, DiplomaStatus, active, revoked, UploadRecord,
  ParsedQr,
}
use diasoft.Gateway.Payload.{RecordCodec, decode_batch_record_payload}
use diasoft.Gateway.Store.{
  BatchRow, PayloadRow, ResultRow, HashRow, Db, Env, select_batches, select_rows,
}
use diasoft.Gateway.Store.Tables.{has_id, of_batch, is_error_of, is_error}
use diasoft.Gateway.Results.{parse_qr_payload}
use diasoft.Gateway.Batches.{BatchView}

abbrev pub newer : BatchRow → BatchRow → Bool
newer a b = leb b.created_at a.created_at

abbrev pub is_owned_by : String → BatchRow → Bool
is_owned_by vuz_id b = b.vuz_id == vuz_id

abbrev pub view : Db → BatchRow → BatchView
view db b = record { row = b; failed_records = count (is_error_of b.id) db.results }

abbrev pub limit_or : ℕ → ℤ → ℕ
limit_or default (pos zero) = default
limit_or default (pos (suc n)) = suc n
limit_or default (negsuc n) = default

-- ORDER BY created_at DESC LIMIT
unfoldable pub list_batches : Env → String → ℤ → Db → Result Error (List BatchView)
list_batches env vuz_id limit db = elim (env.down select_batches) [
  | true ↦ err driver
  | false ↦ ok (
      map (view db)
        (take (limit_or 20 limit) (order_by newer (select (is_owned_by vuz_id) db.batches))))
]

-- BatchDownloadRow
pub record DownloadRow : Type 0 where
  pub record_index : ℤ
  pub diploma_hash : String
  pub full_name : String
  pub diploma_number : String
  pub specialty : String
  pub degree : String
  pub faculty : String
  pub year : ℤ
  pub qr_payload : String
  pub status : String
  pub error : Option String

abbrev pub text_of : DiplomaStatus → String
text_of active = "active"
text_of revoked = "revoked"

abbrev pub or_empty : Option String → String
or_empty none = ""
or_empty (some s) = s

-- LEFT JOIN diploma_hashes
abbrev pub diploma_at : Db → Option String → Option HashRow
diploma_at db none = none
diploma_at db (some hash) = find (λ h. h.hash == hash) db.hashes

-- LEFT JOIN batch_record_payloads
abbrev pub payload_at : Db → ResultRow → Option PayloadRow
payload_at db r =
    find (λ p. p.batch_id == r.batch_id && pos p.record_index == r.record_index) db.payloads

-- The status of the diploma stands for the one of a row that is no error.
abbrev pub shown_status : RowStatus → Option HashRow → String
shown_status row_error h = "error"
shown_status row_ok none = "ok"
shown_status row_ok (some h) = text_of h.status

abbrev first_row : Db → ResultRow → DownloadRow
first_row db r = record {
  record_index = r.record_index;
  diploma_hash = or_empty r.diploma_hash;
  full_name = "";
  diploma_number = "";
  specialty = "";
  degree = "";
  faculty = "";
  year = pos 0;
  qr_payload = "";
  status = shown_status r.status (diploma_at db r.diploma_hash);
  error = r.error;
}

abbrev pub with_record : DownloadRow → Option UploadRecord → DownloadRow
with_record d none = d
with_record d (some r) = record d {
  full_name = r.full_name;
  diploma_number = r.diploma_number;
  specialty = r.specialty;
  degree = r.degree;
  faculty = r.faculty;
  year = r.year;
}

unfoldable pub from_payload :
    Option RecordCodec → Option PayloadRow → DownloadRow → Result Error DownloadRow
from_payload codec none d = ok d
from_payload codec (some p) d = do
  r ← decode_batch_record_payload codec p.encrypted_payload
  ok (with_record d r)

-- firstNonEmpty and firstNonZero, of two values
abbrev pub first_non_empty : String → String → String
first_non_empty a b = if not (blank a) then a else if not (blank b) then b else ""

abbrev first_non_zero : ℤ → ℤ → ℤ
first_non_zero a b = if is_nonzero a then a else b

abbrev lacks : DownloadRow → Bool
lacks d =
    is_empty d.full_name
    || is_empty d.diploma_number
    || is_empty d.specialty
    || is_empty d.degree
    || is_empty d.faculty
    || not (is_nonzero d.year)

abbrev filled : DownloadRow → ParsedQr → DownloadRow
filled d qr = record d {
  full_name = first_non_empty d.full_name qr.full_name;
  diploma_number = first_non_empty d.diploma_number qr.diploma_number;
  specialty = first_non_empty d.specialty qr.specialty;
  degree = first_non_empty d.degree qr.degree;
  faculty = first_non_empty d.faculty qr.faculty;
  year = first_non_zero d.year qr.year;
}

unfoldable pub from_qr : Env → Option String → DownloadRow → Result Error DownloadRow
from_qr env none d = ok d
from_qr env (some payload) d =
    let with_payload = record d { qr_payload = payload } in
    let parsed = parse_qr_payload env.decoder payload >>= λ qr. ok (filled with_payload qr) in
    if blank payload then ok d else if lacks d then parsed else ok with_payload

unfoldable pub download_row : Env → Option RecordCodec → Db → ResultRow → Result Error DownloadRow
unfolding from_payload from_qr
download_row env codec db r = do
  d ← from_payload codec (payload_at db r) (first_row db r)
  from_qr env r.qr_payload d

unfoldable pub each_row :
    Env → Option RecordCodec → Db → List ResultRow → Result Error (List DownloadRow)
each_row env codec db [] = ok []
each_row env codec db (r ∷ rs) = do
  d ← download_row env codec db r
  ds ← each_row env codec db rs
  ok (d ∷ ds)

abbrev pub index_before : ResultRow → ResultRow → Bool
index_before a b = not (ltb_ℤ b.record_index a.record_index)

abbrev pub is_batch_of : String → String → BatchRow → Bool
is_batch_of batch_id vuz_id b = b.id == batch_id && b.vuz_id == vuz_id

-- The rows of the batch, if it is the university's, by their index.
unfoldable pub rows_of_batch : String → String → Db → List ResultRow
rows_of_batch batch_id vuz_id db =
    if any (is_batch_of batch_id vuz_id) db.batches
    then order_by index_before (select (of_batch batch_id) db.results)
    else []

unfoldable pub get_batch_download_rows :
    Env → Option RecordCodec → String → String → Db → Result Error (List DownloadRow)
unfolding rows_of_batch each_row
get_batch_download_rows env codec batch_id vuz_id db = elim (env.down select_rows) [
  | true ↦ err driver
  | false ↦ each_row env codec db (rows_of_batch batch_id vuz_id db)
]
