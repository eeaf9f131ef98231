-- ===== src/Gateway/Results.antt =====
-- ApplyProcessingResult of gateway-service/internal/repository/postgres/diploma_repository.go: what
-- the gateway does with a message of the topic of processing results.
mod Settle
pub mod Closing
pub mod Effect
pub mod Invariant
pub mod Progress
use diasoft.Prelude.{
  ℕ, ◌+◌, String, ◌≡◌, ◌⊎◌, inl, inr, Option, none, some, not, ◌&&◌, ◌||◌, Result, ok, err, ℤ, ltb,
  trim_space, blank, is_empty, any, find, count, update, ◌==◌, Eq-string, if◌then◌else◌,
}
use diasoft.Gateway.Model.{
  Error, no_rows, message, completed, failed, row_ok, row_error, active, ProcessingResult, ParsedQr,
}
use diasoft.Gateway.Store.{
  BatchRow, ResultRow, HashRow, Db, Env, Tx, ◌>>=◌, pure, run, transact, transact-cases, begin_tx,
  commit_tx, select_result, select_hash, insert_hash, insert_result, increment_batch, select_batch,
  update_batch,
}
use diasoft.Gateway.Store.Tables.{
  is_result, has_id, is_error_of, is_diploma, insert_result_row, insert_hash_row,
}

infixl 5 ◌>>◌
abbrev pub ◌>>◌ : {A : Type 0} → Tx Unit → Tx A → Tx A
m >> k = m >>= λ _. k

abbrev pub error_row : Env → String → ℤ → String → ResultRow
error_row env batch_id index text = record {
  batch_id = batch_id;
  record_index = index;
  diploma_hash = none;
  qr_payload = none;
  status = row_error;
  error = some text;
  created_at = env.now;
}

insert_batch_result_error : Env → String → ℤ → String → Tx Unit
unfolding insert_result_row
insert_batch_result_error env batch_id index text =
    run env insert_result (insert_result_row (error_row env batch_id index text))

abbrev pub bump : BatchRow → BatchRow
bump b = record b { processed_records = b.processed_records + 1 }

increment_batch_processed : Env → String → Tx Unit
increment_batch_processed env batch_id =
    run env increment_batch
      (λ db. ok (tt, record db { batches = update (has_id batch_id) bump db.batches }))

-- COALESCE(completed_at, NOW())
abbrev pub or_now : ℕ → Option ℕ → Option ℕ
or_now now none = some now
or_now now (some t) = some t

abbrev pub close : ℕ → ℕ → BatchRow → BatchRow
close now errors b = record b {
  status = if ltb 0 errors then failed else completed;
  completed_at = or_now now b.completed_at;
}

-- The test of the counters that the SELECT returned, and the UPDATE.
close_batch : Env → String → ℕ → BatchRow → Tx Unit
close_batch env batch_id errors b db =
    if ltb b.processed_records b.total_records
    then ok (tt, db)
    else run env update_batch
        (λ d.
          ok (tt, record d { batches = update (has_id batch_id) (close env.now errors) d.batches }))
        db

finalize_batch_if_complete : Env → String → Tx Unit
unfolding close_batch
finalize_batch_if_complete env batch_id = run env select_batch λ db.
    elim (find (has_id batch_id) db.batches) [
      | none ↦ err no_rows
      | some b ↦ close_batch env batch_id (count (is_error_of batch_id) db.results) b db
    ]

abbrev pub commit : Env → Tx Unit
commit env = run env commit_tx (pure tt)

-- The calls that follow an INSERT INTO batch_results on every path.
pub finish : Env → String → Tx Unit
unfolding increment_batch_processed finalize_batch_if_complete
finish env batch_id = do
  increment_batch_processed env batch_id
  finalize_batch_if_complete env batch_id
  commit env

pub store_error : Env → ProcessingResult → String → Tx Unit
unfolding insert_batch_result_error finish
store_error env r text = do
  insert_batch_result_error env r.batch_id r.record_index text
  finish env r.batch_id

unfoldable pub string_or_default : Option String → String → String
string_or_default none default = default
string_or_default (some s) default =
    let trimmed = trim_space s in if is_empty trimmed then default else trimmed

unfoldable pub parse_qr_payload :
    Option (String → Result Error ParsedQr) → String → Result Error ParsedQr
parse_qr_payload none payload = err (message "qr payload decoder is not configured")
parse_qr_payload (some parse) payload = parse payload

abbrev pub new_hash : Env → ProcessingResult → ParsedQr → HashRow
new_hash env r qr = record {
  hash = r.diploma_hash;
  vuz_id = r.vuz_id;
  diploma_number = qr.diploma_number;
  status = active;
  created_at = env.now;
  revoked_at = none;
}

abbrev pub ok_row : Env → ProcessingResult → String → ResultRow
ok_row env r payload = record {
  batch_id = r.batch_id;
  record_index = r.record_index;
  diploma_hash = some r.diploma_hash;
  qr_payload = some payload;
  status = row_ok;
  error = none;
  created_at = env.now;
}

-- What follows the switch on the diploma that holds the number already.
unfoldable pub store_ok : Env → ProcessingResult → String → Tx Unit
unfolding insert_result_row finish
store_ok env r payload = do
  run env insert_result (insert_result_row (ok_row env r payload))
  finish env r.batch_id

unfoldable pub register : Env → ProcessingResult → String → ParsedQr → Option HashRow → Tx Unit
unfolding insert_hash_row
register env r payload qr none = do
  run env insert_hash (insert_hash_row (new_hash env r qr))
  store_ok env r payload
register env r payload qr (some h) = λ db.
    if h.hash == r.diploma_hash
    then store_ok env r payload db
    else store_error env r "diploma number already exists" db

-- The checks of a QR payload that the decoder has read.
unfoldable pub store_parsed : Env → ProcessingResult → String → ParsedQr → Tx Unit
store_parsed env r payload qr db =
    if blank qr.diploma_number
    then store_error env r "qr payload does not contain diploma number" db
    else if not (blank qr.vuz_id) && not (qr.vuz_id == r.vuz_id)
    then store_error env r "qr payload university mismatch" db
    else run env select_hash
        (register env r payload qr (find (is_diploma r.vuz_id qr.diploma_number) db.hashes)) db

unfoldable pub store_new : Env → ProcessingResult → Option String → Tx Unit
store_new env r none db = store_error env r (string_or_default r.error "processing error") db
store_new env r (some payload) db =
    if not (r.status == "ok") || blank r.diploma_hash
    then store_error env r (string_or_default r.error "processing error") db
    else elim (parse_qr_payload env.decoder payload) [
      | err _ ↦ store_error env r "qr payload does not contain diploma number" db
      | ok qr ↦ store_parsed env r payload qr db
    ]

pub apply_body : Env → ProcessingResult → Tx Unit
unfolding store_new
apply_body env r = run env begin_tx (
    run env select_result λ db.
      if any (is_result r.batch_id r.record_index) db.results
      then commit env db
      else store_new env r r.qr_payload db)

unfoldable pub apply_processing_result : Env → ProcessingResult → Db → Result Error Unit × Db
unfolding apply_body transact
apply_processing_result env r = transact (apply_body env r)

-- An error leaves the tables as they were.
pub apply_processing_result-cases :
    (env : Env) (r : ProcessingResult) (db : Db)
    → (apply_processing_result env r db ≡ (ok tt, (apply_processing_result env r db).1))
      ⊎ ((e : Error) × (apply_processing_result env r db ≡ (err e, db)))
unfolding apply_processing_result
apply_processing_result-cases env r db = elim (transact-cases (apply_body env r) db) [
  | inl (_, done) ↦ inl done
  | inr broken ↦ inr broken
]
