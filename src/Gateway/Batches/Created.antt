-- ===== src/Gateway/Batches/Created.antt =====
-- What CreateBatchWithRecords has done when it succeeds.
use diasoft.Prelude.{
  ℕ, suc, String, ◌≡◌, refl, inl, inr, Option, List, [], ◌∷◌, ◌++◌, false, ok, any, arith, ap, ◌∙◌,
  Result-cases,
}
use diasoft.Gateway.Model.{UploadRecord}
use diasoft.Gateway.Payload.{RecordCodec, encode_batch_record_payload}
use diasoft.Gateway.Store.{BatchRow, PayloadRow, Db, Env, transact}
use diasoft.Gateway.Store.Tables.{has_id}
use diasoft.Gateway.Batches.{insert_payloads, new_batch, create_body, create_batch_with_records}
use mathlib.Core.List.{append-nil, append_assoc}

-- One row for each record, in order, from the given index on, that holds the sealed record.
abbrev pub Encodes : Option RecordCodec → String → ℕ → List UploadRecord → List PayloadRow → Type 0
Encodes codec id index [] [] = Unit
Encodes codec id index [] (p ∷ ps) = ⊥
Encodes codec id index (r ∷ rs) [] = ⊥
Encodes codec id index (r ∷ rs) (p ∷ ps) =
    (p.batch_id ≡ id)
    × (p.record_index ≡ index)
    × (encode_batch_record_payload codec r ≡ ok p.encrypted_payload)
    × Encodes codec id (suc index) rs ps

abbrev with_payloads : Db → List PayloadRow → Db
with_payloads db ps = record db { payloads = db.payloads ++ ps }

module _ (env : Env) (codec : Option RecordCodec) (id : String) where
  insert_payloads-Encodes :
      (rs : List UploadRecord) (index : ℕ) (db db' : Db)
      → insert_payloads env codec id index rs db ≡ ok (tt, db')
      → (ps : List PayloadRow) × Encodes codec id index rs ps × (db' ≡ with_payloads db ps)
  unfolding insert_payloads
  insert_payloads-Encodes [] index db db' h = ([], tt, ground (arith, append-nil db.payloads))
  insert_payloads-Encodes (r ∷ rs) index db db' h =
      elim (Result-cases (encode_batch_record_payload codec r)) [
        | inr (e, broken) ↦ absurd (ground arith)
        | inl (text, sealed) ↦
            let p : PayloadRow = record {
              batch_id = id;
              record_index = index;
              encrypted_payload = text;
            } in
            let (ps, encoded, e) =
              insert_payloads-Encodes rs (suc index) (with_payloads db (p ∷ [])) db'
                (ground arith) in
            (
              p ∷ ps,
              (refl, refl, sealed, encoded),
              e ∙ ap (λ q. record db { payloads = q }) (append_assoc db.payloads (p ∷ []) ps),
            )
      ]

-- A batch that is created was not there; it has a row of its own, and a sealed row for each record.
pub record Creates (env : Env) (codec : Option RecordCodec) (vuz_id : String)
    (records : List UploadRecord) (db db' : Db) : Type 0 where
  pub unused : any (has_id env.new_id) db.batches ≡ false
  pub payload_rows : List PayloadRow
  pub encodes : Encodes codec env.new_id 0 records payload_rows
  pub same : db' ≡ record db {
    batches = db.batches ++ new_batch env vuz_id records ∷ [];
    payloads = db.payloads ++ payload_rows;
  }

module _ (env : Env) (codec : Option RecordCodec) (vuz_id : String) (records : List UploadRecord)
    (b : BatchRow) (db db' : Db) where
  created_rows :
      create_batch_with_records env codec vuz_id records db ≡ (ok b, db')
      → (any (has_id env.new_id) db.batches ≡ false)
        × (b ≡ new_batch env vuz_id records)
        × (insert_payloads env codec env.new_id 0 records
              (record db { batches = db.batches ++ new_batch env vuz_id records ∷ [] })
            ≡ ok (tt, db'))
  unfolding create_batch_with_records create_body transact
  created_rows h = ground arith

  -- A successful CreateBatchWithRecords adds one batch with the count of the records, and one sealed
  -- row for each record in order; it returns that batch, and changes no other row.
  pub create_batch_with_records-Creates :
      create_batch_with_records env codec vuz_id records db ≡ (ok b, db')
      → (b ≡ new_batch env vuz_id records) × Creates env codec vuz_id records db db'
  create_batch_with_records-Creates h =
      let (unused, e, rest) = created_rows h in
      let (ps, encoded, same) = insert_payloads-Encodes env codec env.new_id records 0 _ db' rest in
      (e, record { unused = unused; payload_rows = ps; encodes = encoded; same = same })
