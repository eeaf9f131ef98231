-- ===== src/Gateway/Batches.antt =====
-- The batches and the registry in gateway-service/internal/repository/postgres/
-- diploma_repository.go: CreateBatchWithRecords, FailBatch, GetBatch, MarkDiplomaRevoked.
pub mod Created
pub mod Lifecycle
pub mod Listing
pub mod Registry
pub mod Refined
use diasoft.Prelude.{
  ℕ, suc, String, ◌≡◌, ◌⊎◌, Bool, true, false, Option, none, some, List, [], ◌∷◌, ◌++◌, ◌&&◌,
  Result, ok, err, any, find, count, update, length, ◌==◌, Eq-string, Eq-nat, if◌then◌else◌,
}
use diasoft.Gateway.Model.{
  Error, no_rows, driver, unique_violation, rejected, processing, failed, revoked, UploadRecord,
}
use diasoft.Gateway.Payload.{RecordCodec, encode_batch_record_payload}
use diasoft.Gateway.Store.{
  BatchRow, PayloadRow, HashRow, Db, Env, Tx, ◌>>=◌, run, transact, transact-cases, begin_tx,
  commit_tx, insert_batch, insert_payload, select_batch, update_batch, update_hash,
}
use diasoft.Gateway.Store.Tables.{has_id, is_error_of}

infixl 5 ◌>>◌
abbrev ◌>>◌ : {A : Type 0} → Tx Unit → Tx A → Tx A
m >> k = m >>= λ _. k

-- INSERT INTO batches: the reference to the university, the primary key.
pub insert_batch_row : BatchRow → Tx BatchRow
insert_batch_row b db =
    if any (has_id b.id) db.batches
    then err unique_violation
    else if any (λ u. u.id == b.vuz_id) db.universities
    then ok (b, record db { batches = db.batches ++ b ∷ [] })
    else err rejected

-- INSERT INTO batch_record_payloads: the reference to the batch, the primary key.
pub insert_payload_row : PayloadRow → Tx Unit
insert_payload_row p db =
    if any (λ o. o.batch_id == p.batch_id && o.record_index == p.record_index) db.payloads
    then err unique_violation
    else if any (has_id p.batch_id) db.batches
    then ok (tt, record db { payloads = db.payloads ++ p ∷ [] })
    else err rejected

-- The loop over the records, from the given index on.
unfoldable pub insert_payloads : Env → Option RecordCodec → String → ℕ → List UploadRecord → Tx Unit
unfolding insert_payload_row
insert_payloads env codec batch_id index [] db = ok (tt, db)
insert_payloads env codec batch_id index (r ∷ rs) db = elim (encode_batch_record_payload codec r) [
  | err e ↦ err e
  | ok text ↦
      (run env (insert_payload index) (
            insert_payload_row
              (record { batch_id = batch_id; record_index = index; encrypted_payload = text }))
          >> insert_payloads env codec batch_id (suc index) rs)
        db
]

abbrev pub new_batch : Env → String → List UploadRecord → BatchRow
new_batch env vuz_id records = record {
  id = env.new_id;
  vuz_id = vuz_id;
  status = processing;
  total_records = length records;
  processed_records = 0;
  created_at = env.now;
  completed_at = none;
}

pub create_body : Env → Option RecordCodec → String → List UploadRecord → Tx BatchRow
unfolding insert_batch_row
create_body env codec vuz_id records = run env begin_tx do
  b ← run env insert_batch (insert_batch_row (new_batch env vuz_id records))
  insert_payloads env codec b.id 0 records
  run env commit_tx (λ db. ok (b, db))

unfoldable pub create_batch_with_records :
    Env → Option RecordCodec → String → List UploadRecord → Db → Result Error BatchRow × Db
unfolding create_body
create_batch_with_records env codec vuz_id records = transact (create_body env codec vuz_id records)

abbrev pub mark_failed : ℕ → BatchRow → BatchRow
mark_failed now b = record b { status = failed; completed_at = some now }

unfoldable pub fail_batch : Env → String → Db → Result Error Unit × Db
fail_batch env id = transact (
    run env update_batch
      λ db. ok (tt, record db { batches = update (has_id id) (mark_failed env.now) db.batches }))

-- model.Batch, as GetBatch and ListBatches fill it
pub record BatchView : Type 0 where
  pub row : BatchRow
  pub failed_records : ℕ

abbrev is_batch : String → String → BatchRow → Bool
is_batch id vuz_id b = b.id == id && b.vuz_id == vuz_id

unfoldable pub get_batch : Env → String → String → Db → Result Error BatchView
get_batch env id vuz_id db = elim (env.down select_batch) [
  | true ↦ err driver
  | false ↦ elim (find (is_batch id vuz_id) db.batches) [
    | none ↦ err no_rows
    | some b ↦ ok (record { row = b; failed_records = count (is_error_of b.id) db.results })
  ]
]

abbrev pub is_hash_of : String → String → HashRow → Bool
is_hash_of vuz_id hash h = h.hash == hash && h.vuz_id == vuz_id

abbrev pub mark_revoked : ℕ → HashRow → HashRow
mark_revoked now h = record h { status = revoked; revoked_at = some now }

unfoldable pub mark_diploma_revoked : Env → String → String → Db → Result Error Unit × Db
mark_diploma_revoked env vuz_id hash = transact (
    run env update_hash λ db.
      if any (is_hash_of vuz_id hash) db.hashes
      then ok (
        tt,
        record db { hashes = update (is_hash_of vuz_id hash) (mark_revoked env.now) db.hashes },
      )
      else err no_rows)

pub create_batch_with_records-cases :
    (env : Env) (codec : Option RecordCodec) (vuz_id : String) (records : List UploadRecord)
    (db : Db)
    → ((b : BatchRow) × (create_batch_with_records env codec vuz_id records db
          ≡ (ok b, (create_batch_with_records env codec vuz_id records db).1)))
      ⊎ ((e : Error) × (create_batch_with_records env codec vuz_id records db ≡ (err e, db)))
unfolding create_batch_with_records
create_batch_with_records-cases env codec vuz_id records db =
    transact-cases (create_body env codec vuz_id records) db
