-- ===== src/Gateway/Batches/Lifecycle.antt =====
-- Sequences of the operations on batches and diplomas, and what holds after all of them.
use diasoft.Prelude.{
  ◌<◌, String, ◌≡◌, refl, ◌⊎◌, inl, inr, Option, none, some, List, find, count, update, length,
  Eq-string, arith, ap, Option-cases, find-concat, find-any-false,
}
use diasoft.Gateway.Model.{UploadRecord, ProcessingResult}
use diasoft.Gateway.Payload.{RecordCodec}
use diasoft.Gateway.Store.{BatchRow, HashRow, Db, Env, transact}
use diasoft.Gateway.Store.Tables.{has_id, is_error_of, of_batch, find-update}
use diasoft.Gateway.Results.{apply_processing_result}
use diasoft.Gateway.Results.Invariant.{
  BatchFits, IsConsistent, apply_processing_result-IsConsistent,
}
use diasoft.Gateway.Batches.{
  create_batch_with_records, new_batch, fail_batch, mark_failed, mark_diploma_revoked, is_hash_of,
  mark_revoked, create_batch_with_records-cases,
}
use diasoft.Gateway.Batches.Created.{Creates, create_batch_with_records-Creates}

module _ {env : Env} {codec : Option RecordCodec} {vuz_id : String} {records : List UploadRecord}
    {db db' : Db} (c : Creates env codec vuz_id records db db') (some_record : 0 < length records)
    (k : IsConsistent db) where
  create_fits :
      (j : String) (b : BatchRow) → find (has_id j) db'.batches ≡ some b → BatchFits db' j b
  create_fits j b h =
      let unused = find-any-false (has_id env.new_id) db.batches c.unused in
      let batches = ap (λ (d : Db). find (has_id j) d.batches) c.same in
      let results = ap (λ (d : Db). count (of_batch j) d.results) c.same in
      let errors = ap (λ (d : Db). count (is_error_of j) d.results) c.same in
      let added = find-concat (has_id j) db.batches (new_batch env vuz_id records) in
      elim (Option-cases (find (has_id j) db.batches)) [
        | inl none_there ↦
            let no_rows = k.owned j none_there in
            record { counted = ground arith; unfinished = ground arith; complete = ground arith }
        | inr (old, found) ↦
            let f = k.fits j old found in
            let e : b ≡ old = ground arith in
            record { counted = ground arith; unfinished = ground arith; complete = ground arith }
      ]

  create_owned :
      (j : String) → find (has_id j) db'.batches ≡ none → count (of_batch j) db'.results ≡ 0
  create_owned j h =
      let batches = ap (λ (d : Db). find (has_id j) d.batches) c.same in
      let results = ap (λ (d : Db). count (of_batch j) d.results) c.same in
      ground (arith, find-concat (has_id j) db.batches (new_batch env vuz_id records), k.owned j)

module _ (env : Env) (id : String) (db : Db) where
  abbrev pub marked : Db
  marked = record db { batches = update (has_id id) (mark_failed env.now) db.batches }

  pub fail_batch-cases : ((fail_batch env id db).1 ≡ marked) ⊎ ((fail_batch env id db).1 ≡ db)
  unfolding fail_batch transact
  fail_batch-cases = ground arith

module _ (env : Env) (id : String) (db : Db) (k : IsConsistent db) where
  marked_fits :
      (j : String) (b : BatchRow)
      → find (has_id j) (marked env id db).batches ≡ some b
      → BatchFits (marked env id db) j b
  marked_fits j b h =
      let changed = find-update j id (mark_failed env.now) (λ b. refl) db.batches in
      elim (Option-cases (find (has_id j) db.batches)) [
        | inl none_there ↦ absurd (ground arith)
        | inr (old, found) ↦
            let f = k.fits j old found in
            record { counted = ground arith; unfinished = ground arith; complete = ground arith }
      ]

  fail_batch-IsConsistent : IsConsistent (fail_batch env id db).1
  fail_batch-IsConsistent = elim (fail_batch-cases env id db) [
    | inr same ↦ rw same k
    | inl changed ↦ rw changed (record {
      fits = marked_fits;
      owned = λ j h.
          ground (arith, find-update j id (mark_failed env.now) (λ b. refl) db.batches, k.owned j);
    })
  ]

abbrev revoked_in : Env → String → String → Db → Db
revoked_in env vuz_id hash db = record db {
  hashes = update (is_hash_of vuz_id hash) (mark_revoked env.now) db.hashes;
}

pub mark_diploma_revoked-cases :
    (env : Env) (vuz_id hash : String) (db : Db)
    → ((mark_diploma_revoked env vuz_id hash db).1 ≡ revoked_in env vuz_id hash db)
      ⊎ ((mark_diploma_revoked env vuz_id hash db).1 ≡ db)
unfolding mark_diploma_revoked transact
mark_diploma_revoked-cases env vuz_id hash db = ground arith

hashes-IsConsistent :
    (db : Db) (hs : List HashRow) → IsConsistent db → IsConsistent (record db { hashes = hs })
hashes-IsConsistent db hs k = record {
  fits = λ j b h.
      let f = k.fits j b h in
      record { counted = f.counted; unfinished = f.unfinished; complete = f.complete };
  owned = k.owned;
}

mark_diploma_revoked-IsConsistent :
    (env : Env) (vuz_id hash : String) (db : Db)
    → IsConsistent db
    → IsConsistent (mark_diploma_revoked env vuz_id hash db).1
mark_diploma_revoked-IsConsistent env vuz_id hash db k =
    elim (mark_diploma_revoked-cases env vuz_id hash db) [
      | inl changed ↦ rw changed (hashes-IsConsistent db _ k)
      | inr same ↦ rw same k
    ]

create_batch_with_records-IsConsistent :
    (env : Env) (codec : Option RecordCodec) (vuz_id : String) (records : List UploadRecord)
    (db : Db)
    → 0 < length records
    → IsConsistent db
    → IsConsistent (create_batch_with_records env codec vuz_id records db).1
create_batch_with_records-IsConsistent env codec vuz_id records db some_record k =
    elim (create_batch_with_records-cases env codec vuz_id records db) [
      | inl (b, done) ↦
          let (_, c) = create_batch_with_records-Creates env codec vuz_id records b db _ done in
          record { fits = create_fits c some_record k; owned = create_owned c some_record k }
      | inr (e, broken) ↦ rw broken k
    ]

-- One operation of the service, in any surroundings, whether it succeeds or not.
pub data Step (db : Db) : Db → Type 0 where
  upload :
      (env : Env) (codec : Option RecordCodec) (vuz_id : String) (records : List UploadRecord)
      → 0 < length records
      → Step db (create_batch_with_records env codec vuz_id records db).1
  publish_fails : (env : Env) (id : String) → Step db (fail_batch env id db).1
  receive : (env : Env) (r : ProcessingResult) → Step db (apply_processing_result env r db).1
  revoke : (env : Env) (vuz_id hash : String) → Step db (mark_diploma_revoked env vuz_id hash db).1

pub data Reach (start : Db) : Db → Type 0 where
  here : Reach start start
  next : {db db' : Db} → Reach start db → Step db db' → Reach start db'

pub Step-IsConsistent : {db db' : Db} → Step db db' → IsConsistent db → IsConsistent db'
Step-IsConsistent {db} (upload env codec vuz_id records n) k =
    create_batch_with_records-IsConsistent env codec vuz_id records db n k
Step-IsConsistent {db} (publish_fails env id) k = fail_batch-IsConsistent env id db k
Step-IsConsistent {db} (receive env r) k = apply_processing_result-IsConsistent env r db k
Step-IsConsistent {db} (revoke env vuz_id hash) k =
    mark_diploma_revoked-IsConsistent env vuz_id hash db k

-- From consistent tables, every sequence of uploads of at least one record, failed publications,
-- received results and revocations, in any surroundings, leads to consistent tables: each batch's
-- counter is the number of its stored rows, and its status agrees with them.
pub Reach-IsConsistent : {start db : Db} → IsConsistent start → Reach start db → IsConsistent db
Reach-IsConsistent k here = k
Reach-IsConsistent k (next r s) = Step-IsConsistent s (Reach-IsConsistent k r)
