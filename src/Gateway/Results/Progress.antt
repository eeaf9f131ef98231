-- ===== src/Gateway/Results/Progress.antt =====
-- When ApplyProcessingResult succeeds, and what a second delivery of a message does.
use diasoft.Prelude.{
  String, ◌≡◌, refl, inl, inr, Option, none, some, List, [], ◌∷◌, ◌++◌, true, false, ◌||◌, ok, ltb,
  fits_int32, char_count, any, find, ◌==◌, Eq-string, arith, eq_iff, int_eq_iff, Bool-cases,
  Result-cases, is_ok, any-concat, find-any-true,
}
use diasoft.Gateway.Model.{ProcessingResult, ParsedQr}
use diasoft.Gateway.Store.{
  Stmt, ResultRow, HashRow, Db, Env, insert_result, insert_hash, select_hash, begin_tx, commit_tx,
  select_result, increment_batch, select_batch, update_batch,
}
use diasoft.Gateway.Store.Tables.{
  is_result, has_id, has_nul, is_diploma, insert_result_row, insert_hash_row, find-update,
}
use diasoft.Gateway.Results.{
  bump, finish, error_row, ok_row, new_hash, store_ok, store_error, register, store_parsed,
  store_new, string_or_default, apply_processing_result, parse_qr_payload,
}
use diasoft.Gateway.Results.Effect.{
  Stores, Applies, refused, accepted, apply_processing_result-Applies,
}

stored_is_there :
    {env : Env} {row : ResultRow} {db db' : Db}
    → Stores env row db db'
    → any (is_result row.batch_id row.record_index) db'.results ≡ true
stored_is_there {row} {db} s = rw s.results (
    any-concat (is_result row.batch_id row.record_index) db.results row (
      ground
        (arith, eq_iff row.batch_id row.batch_id, int_eq_iff row.record_index row.record_index)))

pub applied_is_there :
    {env : Env} {r : ProcessingResult} {db db' : Db}
    → Applies env r db db'
    → any (is_result r.batch_id r.record_index) db'.results ≡ true
applied_is_there (refused text s) = stored_is_there s
applied_is_there (accepted payload qr mid good reg s) = stored_is_there s

redelivered :
    (env : Env) (r : ProcessingResult) (db : Db)
    → (env.down begin_tx ≡ false) × (env.down select_result ≡ false) × (env.down commit_tx ≡ false)
    → any (is_result r.batch_id r.record_index) db.results ≡ true
    → apply_processing_result env r db ≡ (ok tt, db)
unfolding apply_processing_result
redelivered env r db up there = ground arith

-- A message that was applied once and is delivered again is acknowledged and changes nothing, if
-- the calls to begin, to look the row up and to commit go through.
pub apply_processing_result_twice :
    (env env' : Env) (r : ProcessingResult) (db : Db)
    → (apply_processing_result env r db).0 ≡ ok tt
    → (env'.down begin_tx ≡ false)
      × (env'.down select_result ≡ false)
      × (env'.down commit_tx ≡ false)
    → apply_processing_result env' r (apply_processing_result env r db).1
      ≡ (ok tt, (apply_processing_result env r db).1)
apply_processing_result_twice env env' r db h up =
    let db' = (apply_processing_result env r db).1 in
    redelivered env' r db' up
      (elim (apply_processing_result-Applies env r db db' (λ i. (h i, db'))) [
        | inl (old, same) ↦ rw same old
        | inr a ↦ applied_is_there a
      ])

-- What the constraints of the tables ask of the result of a first delivery.
pub record Fits (env : Env) (r : ProcessingResult) (db : Db) : Type 0 where
  pub batch_known : any (has_id r.batch_id) db.batches ≡ true
  pub index_fits : fits_int32 r.record_index ≡ true
  pub hash_fits : ltb 64 (char_count r.diploma_hash) ≡ false
  pub number_fits :
      (payload : String) (qr : ParsedQr)
      → r.qr_payload ≡ some payload
      → parse_qr_payload env.decoder payload ≡ ok qr
      → ltb 50 (char_count qr.diploma_number) ≡ false
  -- No text has the character NUL.
  pub error_has_no_nul : has_nul (string_or_default r.error "processing error") ≡ false
  pub hash_has_no_nul : has_nul r.diploma_hash ≡ false
  pub payload_has_no_nul :
      (payload : String) → r.qr_payload ≡ some payload → has_nul payload ≡ false
  pub number_has_no_nul :
      (payload : String) (qr : ParsedQr)
      → r.qr_payload ≡ some payload
      → parse_qr_payload env.decoder payload ≡ ok qr
      → has_nul qr.diploma_number ≡ false
  pub university_known : any (λ u. u.id == r.vuz_id) db.universities ≡ true
  -- The hash is not the hash of another diploma.
  pub hash_free :
      (payload : String) (qr : ParsedQr)
      → r.qr_payload ≡ some payload
      → parse_qr_payload env.decoder payload ≡ ok qr
      → find (is_diploma r.vuz_id qr.diploma_number) db.hashes ≡ none
      → any (λ o. o.hash == r.diploma_hash) db.hashes ≡ false

module _ (env : Env) (up : (s : Stmt) → env.down s ≡ false) where
  finish_total :
      (id : String) (db : Db) → any (has_id id) db.batches ≡ true → is_ok (finish env id db) ≡ true
  unfolding finish
  finish_total id db known =
      let (b, found) = find-any-true (has_id id) db.batches known in
      ground (
        arith,
        up increment_batch,
        up select_batch,
        up update_batch,
        up commit_tx,
        find-update id id bump (λ _. refl) db.batches,
        eq_iff id id,
      )

  module _ (r : ProcessingResult) (db : Db) (f : Fits env r db)
      (first : any (is_result r.batch_id r.record_index) db.results ≡ false) where
    store_error_total :
        (text : String) → has_nul text ≡ false → is_ok (store_error env r text db) ≡ true
    unfolding store_error insert_result_row
    store_error_total text plain =
        let row = error_row env r.batch_id r.record_index text in
        let stored : Db = record db { results = db.results ++ row ∷ [] } in
        ground
          (arith, up insert_result, f.batch_known, f.index_fits, finish_total r.batch_id stored)

    store_ok_total :
        (payload : String) (hs : List HashRow)
        → has_nul payload ≡ false
        → is_ok (store_ok env r payload (record db { hashes = hs })) ≡ true
    unfolding store_ok insert_result_row
    store_ok_total payload hs plain =
        let row = ok_row env r payload in
        let stored : Db = record db { results = db.results ++ row ∷ []; hashes = hs } in
        ground (
          arith,
          up insert_result,
          f.batch_known,
          f.index_fits,
          f.hash_fits,
          f.hash_has_no_nul,
          finish_total r.batch_id stored,
        )

    no_diploma :
        (qr : ParsedQr) (hs : List HashRow)
        → find (is_diploma r.vuz_id qr.diploma_number) hs ≡ none
        → any (λ o. o.hash == r.diploma_hash) hs ≡ false
        → any (λ o. o.hash == r.diploma_hash || is_diploma r.vuz_id qr.diploma_number o) hs ≡ false
    no_diploma qr [] p q = refl
    no_diploma qr (o ∷ hs) p q = ground (arith, no_diploma qr hs)

    register_total :
        (payload : String) (qr : ParsedQr) (o : Option HashRow)
        → r.qr_payload ≡ some payload
        → parse_qr_payload env.decoder payload ≡ ok qr
        → find (is_diploma r.vuz_id qr.diploma_number) db.hashes ≡ o
        → is_ok (register env r payload qr o db) ≡ true
    unfolding register insert_hash_row has_nul
    register_total payload qr none given parsed free = ground (
      arith,
      up insert_hash,
      f.hash_fits,
      f.number_fits payload qr given parsed,
      f.number_has_no_nul payload qr given parsed,
      f.hash_has_no_nul,
      f.university_known,
      no_diploma qr db.hashes free (f.hash_free payload qr given parsed free),
      store_ok_total payload (db.hashes ++ new_hash env r qr ∷ [])
          (f.payload_has_no_nul payload given),
    )
    register_total payload qr (some o) given parsed found = ground (
      arith,
      store_ok_total payload db.hashes (f.payload_has_no_nul payload given),
      store_error_total "diploma number already exists" refl,
    )

    store_new_total : (o : Option String) → r.qr_payload ≡ o → is_ok (store_new env r o db) ≡ true
    unfolding store_new store_parsed has_nul
    store_new_total none given =
        store_error_total (string_or_default r.error "processing error") f.error_has_no_nul
    store_new_total (some payload) given =
        elim (Result-cases (parse_qr_payload env.decoder payload)) [
          | inl (qr, parsed) ↦ ground (
            arith,
            up select_hash,
            store_error_total (string_or_default r.error "processing error") f.error_has_no_nul,
            store_error_total "qr payload does not contain diploma number" refl,
            store_error_total "qr payload university mismatch" refl,
            register_total payload qr (find (is_diploma r.vuz_id qr.diploma_number) db.hashes) given
                parsed refl,
          )
          | inr (e, broken) ↦ ground (
            arith,
            store_error_total (string_or_default r.error "processing error") f.error_has_no_nul,
            store_error_total "qr payload does not contain diploma number" refl,
          )
        ]

  -- With a database that answers, a message is applied with success if its batch exists, its values
  -- fit the columns and have no NUL, its university exists and its hash is not that of another diploma.
  pub apply_processing_result_total :
      (r : ProcessingResult) (db : Db)
      → Fits env r db
      → is_ok (apply_processing_result env r db).0 ≡ true
  unfolding apply_processing_result
  apply_processing_result_total r db f =
      elim (Bool-cases (any (is_result r.batch_id r.record_index) db.results)) [
        | inl old ↦ ground (arith, up begin_tx, up select_result, up commit_tx)
        | inr new ↦
            ground
              (arith, up begin_tx, up select_result, store_new_total r db f new r.qr_payload refl)
      ]
