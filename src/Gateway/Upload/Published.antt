-- ===== src/Gateway/Upload/Published.antt =====
-- What an upload leaves behind.
use diasoft.Prelude.{
  ℕ, suc, ◌<◌, String, ◌≡◌, refl, ap, ◌⊎◌, inl, inr, Option, none, some, List, [], ◌∷◌, Bool, false,
  ok, err, all, find, find-concat, find-any-false, length, Eq-string, eq_iff, Result-cases,
  Option-cases, Bool-cases, arith,
}
use diasoft.Gateway.Model.{Error, failed, UploadRecord}
use diasoft.Gateway.Store.{BatchRow, Db, Env, update_batch, transact}
use diasoft.Gateway.Store.Tables.{has_id, find-update}
use diasoft.Gateway.Batches.{
  create_batch_with_records, create_batch_with_records-cases, new_batch, fail_batch, mark_failed,
}
use diasoft.Gateway.Batches.Created.{Creates, create_batch_with_records-Creates}
use diasoft.Gateway.Batches.Lifecycle.{Step, Reach, here, next, publish_fails, Reach-IsConsistent}
use diasoft.Gateway.Results.Invariant.{IsConsistent}
use diasoft.Gateway.Access.{Ctx}
use diasoft.Gateway.Csv.{parse_csv}
use diasoft.Gateway.Csv.Reads.{parse_csv-AreRows}
use diasoft.Gateway.Upload.{
  of_json, RawTask, raw_tasks, Service, Uploaded, publish, upload, Request, parse_records,
  upload_route,
}

-- One task for each record, in order, numbered from the given index on.
abbrev pub Tasks : String → String → ℕ → ℕ → List UploadRecord → List RawTask → Type 0
Tasks batch_id vuz_id total index [] [] = Unit
Tasks batch_id vuz_id total index [] (t ∷ ts) = ⊥
Tasks batch_id vuz_id total index (r ∷ rs) [] = ⊥
Tasks batch_id vuz_id total index (r ∷ rs) (t ∷ ts) =
    (t.batch_id ≡ batch_id)
    × (t.vuz_id ≡ vuz_id)
    × (t.record_index ≡ index)
    × (t.total_in_batch ≡ total)
    × (t.student ≡ r)
    × Tasks batch_id vuz_id total (suc index) rs ts

raw_tasks-Tasks :
    (batch_id vuz_id : String) (total now index : ℕ) (rs : List UploadRecord)
    → Tasks batch_id vuz_id total index rs (raw_tasks batch_id vuz_id total now index rs)
unfolding raw_tasks
raw_tasks-Tasks batch_id vuz_id total now index [] = tt
raw_tasks-Tasks batch_id vuz_id total now index (r ∷ rs) =
    (refl, refl, refl, refl, refl, raw_tasks-Tasks batch_id vuz_id total now (suc index) rs)

module _ (s : Service) (env : Env) (vuz_id : String) (records : List UploadRecord) (db : Db) where
  -- An upload that succeeds has created a batch of all the records, and published one task for each
  -- of them in order, with the batch's identifier and the record's index.
  pub upload-Tasks :
      (u : Uploaded) (db' : Db)
      → upload s env vuz_id records db ≡ (ok u, db')
      → Creates env s.codec vuz_id records db db'
        × (u.batch_id ≡ env.new_id)
        × (tasks : List RawTask) × Tasks env.new_id vuz_id (length records) 0 records tasks
        × (s.publish_raw_tasks tasks ≡ ok tt)
  unfolding upload publish
  upload-Tasks u db' h = elim (create_batch_with_records-cases env s.codec vuz_id records db) [
    | inr (e, broken) ↦ absurd (ground arith)
    | inl (b, done) ↦
        let mid = (create_batch_with_records env s.codec vuz_id records db).1 in
        let (same_batch, creates) =
          create_batch_with_records-Creates env s.codec vuz_id records b db mid done in
        let tasks = raw_tasks env.new_id vuz_id (length records) env.now 0 records in
        let id : b.id ≡ env.new_id = ground arith in
        let same_tasks : raw_tasks b.id vuz_id (length records) env.now 0 records ≡ tasks =
          ap (λ i. raw_tasks i vuz_id (length records) env.now 0 records) id in
        elim (Result-cases (s.publish_raw_tasks tasks)) [
          | inr (e, broken) ↦ absurd (ground arith)
          | inl (_, sent) ↦
              let same : db' ≡ mid = ground arith in
              (
                rw same creates,
                ground arith,
                tasks,
                raw_tasks-Tasks env.new_id vuz_id (length records) env.now 0 records,
                sent,
              )
        ]
  ]

  -- If the batch is created and its tasks cannot be published, the upload gives the producer's error,
  -- and the new batch is marked as failed, as long as that UPDATE goes through.
  pub upload_unpublished :
      (b : BatchRow) (mid : Db) (e : Error)
      → create_batch_with_records env s.codec vuz_id records db ≡ (ok b, mid)
      → s.publish_raw_tasks (raw_tasks env.new_id vuz_id (length records) env.now 0 records) ≡ err e
      → env.down update_batch ≡ false
      → ((upload s env vuz_id records db).0 ≡ err e)
        × (row : BatchRow) × (find (has_id env.new_id) (upload s env vuz_id records db).1.batches
            ≡ some row)
        × (row.status ≡ failed)
  unfolding upload publish fail_batch transact
  upload_unpublished b mid e created refused up =
      let (same_batch, creates) =
        create_batch_with_records-Creates env s.codec vuz_id records b db mid created in
      let id : b.id ≡ env.new_id = ground arith in
      let same_tasks = ap (λ i. raw_tasks i vuz_id (length records) env.now 0 records) id in
      let added = ap (λ (d : Db). find (has_id env.new_id) d.batches) creates.same in
      let row = mark_failed env.now (new_batch env vuz_id records) in
      (
        ground arith,
        row,
        ground (
          arith,
          added,
          find-concat (has_id env.new_id) db.batches (new_batch env vuz_id records),
          find-any-false (has_id env.new_id) db.batches creates.unused,
          find-update env.new_id env.new_id (mark_failed env.now) (λ b. refl) mid.batches,
          eq_iff env.new_id env.new_id,
          eq_iff b.id env.new_id,
        ),
        refl,
      )

  abbrev created_db : Db
  created_db = (create_batch_with_records env s.codec vuz_id records db).1

  upload-cases :
      ((upload s env vuz_id records db).1 ≡ created_db)
      ⊎ ((id : String) × ((upload s env vuz_id records db).1 ≡ (fail_batch env id created_db).1))
  unfolding upload publish
  upload-cases = elim (create_batch_with_records-cases env s.codec vuz_id records db) [
    | inr (e, broken) ↦ inl (ground arith)
    | inl (b, done) ↦
        elim (Result-cases
          (s.publish_raw_tasks (raw_tasks b.id vuz_id (length records) env.now 0 records))) [
            | inl (_, sent) ↦ inl (ground arith)
            | inr (e, broken) ↦ inr (b.id, ground arith)
          ]
  ]

  upload-Reach : 0 < length records → Reach db (upload s env vuz_id records db).1
  upload-Reach some_record =
      let created : Reach db created_db =
        next here (Step.upload env s.codec vuz_id records some_record) in
      elim upload-cases [
        | inl same ↦ rw same created
        | inr (id, same) ↦ rw same (next created (publish_fails env id))
      ]

parse_csv_some :
    (rows : Option (List (List String))) (rs : List UploadRecord)
    → parse_csv rows ≡ ok rs
    → 0 < length rs
parse_csv_some none rs h = absurd (unfold parse_csv in ground arith)
parse_csv_some (some []) rs h = absurd (unfold parse_csv in ground arith)
parse_csv_some (some (header ∷ rows)) rs h = (parse_csv-AreRows header rows rs h).0

of_json_some :
    (o : Option (List UploadRecord)) (rs : List UploadRecord) → of_json o ≡ ok rs → 0 < length rs
of_json_some none rs h = absurd (ground arith)
of_json_some (some []) rs h = absurd (ground arith)
of_json_some (some (r ∷ others)) rs h = ground arith

parse_records_some :
    (q : Request) (rs : List UploadRecord) → parse_records q ≡ ok rs → 0 < length rs
unfolding parse_records
parse_records_some q rs h = ground (arith, parse_csv_some q.rows rs, of_json_some q.diplomas rs)

module _ (s : Service) (env : Env) (valid : UploadRecord → Bool) (ctx : Ctx) (q : Request)
    (db : Db) where
  upload_route-cases :
      ((upload_route s env valid ctx q db).1 ≡ db)
      ⊎ ((vuz_id : String) × (records : List UploadRecord) × (0 < length records)
          × ((upload_route s env valid ctx q db).1 ≡ (upload s env vuz_id records db).1))
  unfolding upload_route
  upload_route-cases = elim (Option-cases ctx.university_id) [
    | inl nobody ↦ inl (ground arith)
    | inr (vuz_id, known) ↦ elim (Result-cases (parse_records q)) [
      | inr (e, refused) ↦ inl (ground arith)
      | inl (records, parsed) ↦ elim (Bool-cases (all valid records)) [
        | inr invalid ↦ inl (ground arith)
        | inl good ↦ elim (Result-cases (upload s env vuz_id records db).0) [
          | inl (u, done) ↦ inr (vuz_id, records, parse_records_some q records parsed, ground arith)
          | inr (e, broken) ↦
              inr (vuz_id, records, parse_records_some q records parsed, ground arith)
        ]
      ]
    ]
  ]

  -- Every request to the upload route, whatever its body is and whichever calls fail, leaves
  -- consistent tables consistent.
  pub upload_route-IsConsistent :
      IsConsistent db → IsConsistent (upload_route s env valid ctx q db).1
  upload_route-IsConsistent k = elim upload_route-cases [
    | inl same ↦ rw same k
    | inr (vuz_id, records, some_record, same) ↦
        rw same (Reach-IsConsistent k (upload-Reach s env vuz_id records db some_record))
  ]
