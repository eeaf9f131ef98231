-- ===== src/Gateway/Results/Effect.antt =====
-- Every way in which ApplyProcessingResult succeeds, and what it has then done to the tables.
use mathlib.Core.Option
use diasoft.Prelude.{
  String, Option, not, ◌&&◌, ◌≡◌, refl, ◌⊎◌, inl, inr, none, some, List, [], ◌∷◌, ◌++◌, true, false,
  ok, any, find, count, blank, ◌||◌, ◌==◌, Eq-string, if◌then◌else◌, arith, ap, sym, ◌∙◌, eq_iff,
  Bool-cases, Result-cases,
}
use diasoft.Gateway.Model.{ProcessingResult, ParsedQr}
use diasoft.Gateway.Store.{ResultRow, HashRow, Db, Env, run, insert_result}
use diasoft.Gateway.Store.Tables.{
  is_result, has_id, is_error_of, is_diploma, insert_result_row, insert_hash_row,
}
use diasoft.Gateway.Results.{
  ◌>>◌, finish, error_row, ok_row, new_hash, store_ok, store_error, register, store_parsed,
  store_new, string_or_default, apply_processing_result, parse_qr_payload,
}
use diasoft.Gateway.Results.Settle.{settled, finish_lem}

-- A row is stored: it is the first for its batch and index, its batch exists and is settled, and
-- nothing else is touched.
pub record Stores (env : Env) (row : ResultRow) (db db' : Db) : Type 0 where
  pub fresh : any (is_result row.batch_id row.record_index) db.results ≡ false
  pub known : any (has_id row.batch_id) db.batches ≡ true
  pub results : db'.results ≡ db.results ++ row ∷ []
  pub at_batch :
      (j : String)
      → find (has_id j) db'.batches ≡ (
          if j == row.batch_id
          then Option.map
              (settled env.now (count (is_error_of row.batch_id) (db.results ++ row ∷ [])))
              (find (has_id j) db.batches)
          else find (has_id j) db.batches)
  pub same : db' ≡ record db { batches = db'.batches; results = db'.results }
  pub keys : (j : String) → count (has_id j) db'.batches ≡ count (has_id j) db.batches

abbrev stored : ResultRow → Db → Db
stored row db = record db { results = db.results ++ row ∷ [] }

module _ (env : Env) (row : ResultRow) (db db' : Db)
    (h : (run env insert_result (insert_result_row row) >> finish env row.batch_id) db
      ≡ ok (tt, db')) where
  inserted :
      (any (is_result row.batch_id row.record_index) db.results ≡ false)
      × (any (has_id row.batch_id) db.batches ≡ true)
      × (finish env row.batch_id (stored row db) ≡ ok (tt, db'))
  unfolding insert_result_row
  inserted = ground arith

  pub store_lem : Stores env row db db'
  store_lem =
      let s = finish_lem env row.batch_id (stored row db) db' inserted.2 in
      record {
        fresh = inserted.0;
        known = inserted.1;
        results = ap (λ (d : Db). d.results) s.same;
        at_batch = s.at_batch;
        keys = s.keys;
        same =
            s.same
            ∙ ap (λ rs. record db { batches = db'.batches; results = rs })
                (ap (λ (d : Db). d.results) (sym s.same));
      }

-- The diploma of an accepted result: it is in the registry under this hash, or it is added.
pub data Registers (env : Env) (r : ProcessingResult) (qr : ParsedQr) (db : Db) : Db → Type 0 where
  listed :
      (h : HashRow)
      → find (is_diploma r.vuz_id qr.diploma_number) db.hashes ≡ some h
      → h.hash ≡ r.diploma_hash
      → Registers env r qr db db
  added :
      find (is_diploma r.vuz_id qr.diploma_number) db.hashes ≡ none
      → any (λ o. o.hash == r.diploma_hash) db.hashes ≡ false
      → Registers env r qr db (record db { hashes = db.hashes ++ new_hash env r qr ∷ [] })

-- The conditions under which a result is accepted.
pub record Accepts (env : Env) (r : ProcessingResult) (payload : String) (qr : ParsedQr)
    : Type 0 where
  pub payload_given : r.qr_payload ≡ some payload
  pub status_ok : r.status ≡ "ok"
  pub hash_given : blank r.diploma_hash ≡ false
  pub parsed : parse_qr_payload env.decoder payload ≡ ok qr
  pub number_given : blank qr.diploma_number ≡ false
  pub same_university : (blank qr.vuz_id ≡ true) ⊎ (qr.vuz_id ≡ r.vuz_id)

-- A first result is stored as an error, or accepted.
pub data Applies (env : Env) (r : ProcessingResult) (db db' : Db) : Type 0 where
  refused :
      (text : String)
      → Stores env (error_row env r.batch_id r.record_index text) db db'
      → Applies env r db db'
  accepted :
      (payload : String) (qr : ParsedQr) (mid : Db)
      → Accepts env r payload qr
      → Registers env r qr db mid
      → Stores env (ok_row env r payload) mid db'
      → Applies env r db db'

module _ (env : Env) (r : ProcessingResult) (db db' : Db) where
  refused_of_store_error :
      (text : String) → store_error env r text db ≡ ok (tt, db') → Applies env r db db'
  unfolding store_error
  refused_of_store_error text h =
      refused text (store_lem env (error_row env r.batch_id r.record_index text) db db' h)

module _ (env : Env) (r : ProcessingResult) (db db' : Db) (payload : String) (qr : ParsedQr)
    (good : Accepts env r payload qr) where
  accepted_of_store_ok :
      (mid : Db)
      → Registers env r qr db mid
      → store_ok env r payload mid ≡ ok (tt, db')
      → Applies env r db db'
  unfolding store_ok
  accepted_of_store_ok mid reg h =
      accepted payload qr mid good reg (store_lem env (ok_row env r payload) mid db' h)

  absent :
      (hs : List HashRow)
      → any (λ o. o.hash == r.diploma_hash || is_diploma r.vuz_id qr.diploma_number o) hs ≡ false
      → any (λ o. o.hash == r.diploma_hash) hs ≡ false
  absent [] h = refl
  absent (o ∷ hs) h = ground (arith, absent hs)

  inserted_hash :
      find (is_diploma r.vuz_id qr.diploma_number) db.hashes ≡ none
      → register env r payload qr none db ≡ ok (tt, db')
      → (any (λ o. o.hash == r.diploma_hash) db.hashes ≡ false)
        × (store_ok env r payload (record db { hashes = db.hashes ++ new_hash env r qr ∷ [] })
            ≡ ok (tt, db'))
  unfolding register insert_hash_row
  inserted_hash free h = ground (arith, absent db.hashes)

  register_lem :
      (o : Option HashRow)
      → find (is_diploma r.vuz_id qr.diploma_number) db.hashes ≡ o
      → register env r payload qr o db ≡ ok (tt, db')
      → Applies env r db db'
  register_lem none free h =
      let (absent_hash, rest) = inserted_hash free h in
      accepted_of_store_ok (record db { hashes = db.hashes ++ new_hash env r qr ∷ [] })
        (added free absent_hash) rest
  register_lem (some o) found h = elim (Bool-cases (o.hash == r.diploma_hash)) [
    | inl equal ↦
        accepted_of_store_ok db (listed o found ((eq_iff _ _).0 equal))
          (unfold register in ground arith)
    | inr other ↦
        refused_of_store_error env r db db' "diploma number already exists"
          (unfold register in ground arith)
  ]

module _ (env : Env) (r : ProcessingResult) (db db' : Db) where
  store_parsed_lem :
      (payload : String) (qr : ParsedQr)
      → r.qr_payload ≡ some payload
      → r.status ≡ "ok"
      → blank r.diploma_hash ≡ false
      → parse_qr_payload env.decoder payload ≡ ok qr
      → store_parsed env r payload qr db ≡ ok (tt, db')
      → Applies env r db db'
  unfolding store_parsed
  store_parsed_lem payload qr given status hash parsed h =
      elim (Bool-cases (blank qr.diploma_number)) [
        | inl empty ↦
            refused_of_store_error env r db db' "qr payload does not contain diploma number"
              (ground arith)
        | inr number ↦ elim (Bool-cases (blank qr.vuz_id || qr.vuz_id == r.vuz_id)) [
          | inl same ↦
              let good : Accepts env r payload qr = record {
                payload_given = given;
                status_ok = status;
                hash_given = hash;
                parsed = parsed;
                number_given = number;
                same_university = ground (arith, eq_iff qr.vuz_id r.vuz_id);
              } in
              register_lem env r db db' payload qr good _ refl (ground arith)
          | inr other ↦
              refused_of_store_error env r db db' "qr payload university mismatch" (ground arith)
        ]
      ]

  store_new_lem :
      (o : Option String)
      → r.qr_payload ≡ o
      → store_new env r o db ≡ ok (tt, db')
      → Applies env r db db'
  unfolding store_new
  store_new_lem none given h =
      refused_of_store_error env r db db' (string_or_default r.error "processing error") h
  store_new_lem (some payload) given h =
      elim (Bool-cases (r.status == "ok" && not (blank r.diploma_hash))) [
        | inl whole ↦ elim (Result-cases (parse_qr_payload env.decoder payload)) [
          | inl (qr, parsed) ↦
              store_parsed_lem payload qr given (ground (arith, eq_iff r.status "ok"))
                (ground arith) parsed (ground arith)
          | inr (e, broken) ↦
              refused_of_store_error env r db db' "qr payload does not contain diploma number"
                (ground arith)
        ]
        | inr partial ↦
            refused_of_store_error env r db db' (string_or_default r.error "processing error")
              (ground arith)
      ]

  pub apply_processing_result-Applies :
      apply_processing_result env r db ≡ (ok tt, db')
      → ((any (is_result r.batch_id r.record_index) db.results ≡ true) × (db' ≡ db))
        ⊎ Applies env r db db'
  unfolding apply_processing_result
  apply_processing_result-Applies h =
      elim (Bool-cases (any (is_result r.batch_id r.record_index) db.results)) [
        | inl old ↦ inl (old, ground arith)
        | inr new ↦ inr (store_new_lem r.qr_payload refl (ground arith))
      ]
