-- ===== src/Gateway/Results/Invariant.antt =====
-- The counters and the status of every batch agree with the rows of batch_results.
use diasoft.Prelude.{
  Bool, ◌+◌, ◌≤◌, ◌<◌, String, ◌≡◌, inl, inr, none, some, ◌∷◌, [], find, count, any-find-none,
  count-append, ◌==◌, Eq-string, if◌then◌else◌, arith, ap, sym, eq_iff, Option-cases,
}
use diasoft.Gateway.Model.{processing, completed, ProcessingResult, ParsedQr}
use diasoft.Gateway.Store.{BatchRow, ResultRow, Db, Env}
use diasoft.Gateway.Store.Tables.{has_id, is_error_of, of_batch}
use diasoft.Gateway.Results.{apply_processing_result, apply_processing_result-cases}
use diasoft.Gateway.Results.Settle.{settled}
use diasoft.Gateway.Results.Effect.{
  Stores, Applies, refused, accepted, Registers, listed, added, apply_processing_result-Applies,
}

-- A batch that has the identifier j, against the rows of its results.
pub record BatchFits (db : Db) (j : String) (b : BatchRow) : Type 0 where
  pub counted : b.processed_records ≡ count (of_batch j) db.results
  pub unfinished : b.status ≡ processing → b.processed_records < b.total_records
  pub complete :
      b.status ≡ completed
      → (b.total_records ≤ b.processed_records) × (count (is_error_of j) db.results ≡ 0)

pub record IsConsistent (db : Db) : Type 0 where
  pub fits : (j : String) (b : BatchRow) → find (has_id j) db.batches ≡ some b → BatchFits db j b
  -- No row refers to a batch that is not there.
  pub owned : (j : String) → find (has_id j) db.batches ≡ none → count (of_batch j) db.results ≡ 0

module _ {env : Env} {row : ResultRow} {db db' : Db} (s : Stores env row db db') where
  batch_before :
      (j : String) (b : BatchRow)
      → find (has_id j) db'.batches ≡ some b
      → (old : BatchRow) × (find (has_id j) db.batches ≡ some old)
        × (b ≡ (
            if j == row.batch_id
            then settled env.now (count (is_error_of row.batch_id) db'.results) old
            else old))
  batch_before j b h = elim (Option-cases (find (has_id j) db.batches)) [
    | inl gone ↦ absurd (ground (arith, s.at_batch j))
    | inr (old, found) ↦ (old, found, ground (arith, s.at_batch j, s.results))
  ]

  count_after :
      (p : ResultRow → Bool) → count p db'.results ≡ count p db.results + (if p row then 1 else 0)
  count_after p = rw s.results (omega (arith, count-append p db.results (row ∷ [])))

  errors_at :
      (j : String)
      → j ≡ row.batch_id
      → count (is_error_of row.batch_id) db'.results ≡ count (is_error_of j) db'.results
  errors_at j e = ap (λ i. count (is_error_of i) db'.results) (sym e)

  BatchFits-Stores :
      IsConsistent db
      → (j : String) (b : BatchRow) → find (has_id j) db'.batches ≡ some b
      → BatchFits db' j b
  BatchFits-Stores c j b h =
      let (old, found, e) = batch_before j b h in
      let f = c.fits j old found in
      let batch_count = count_after (of_batch j) in
      let error_count = count_after (is_error_of j) in
      let same_batch = eq_iff j row.batch_id in
      let same_batch' = eq_iff row.batch_id j in
      record {
        counted = ground arith;
        unfinished = ground arith;
        complete = ground (arith, errors_at j);
      }

  owned-Stores :
      IsConsistent db
      → (j : String) → find (has_id j) db'.batches ≡ none
      → count (of_batch j) db'.results ≡ 0
  owned-Stores c j h = ground (
    arith,
    c.owned j,
    s.at_batch j,
    s.known,
    count_after (of_batch j),
    eq_iff j row.batch_id,
    eq_iff row.batch_id j,
    any-find-none (has_id row.batch_id) db.batches,
    ap (λ i. find (has_id i) db.batches) {x = j} {y = row.batch_id},
  )

  Stores-IsConsistent : IsConsistent db → IsConsistent db'
  Stores-IsConsistent c = record { fits = BatchFits-Stores c; owned = owned-Stores c }

Registers-IsConsistent :
    {env : Env} {r : ProcessingResult} {qr : ParsedQr} {db mid : Db}
    → Registers env r qr db mid
    → IsConsistent db
    → IsConsistent mid
Registers-IsConsistent (listed h found same) c = c
Registers-IsConsistent (added free absent) c = record {
  fits = λ j b h.
      let f = c.fits j b h in
      record { counted = f.counted; unfinished = f.unfinished; complete = f.complete };
  owned = c.owned;
}

Applies-IsConsistent :
    {env : Env} {r : ProcessingResult} {db db' : Db}
    → Applies env r db db'
    → IsConsistent db
    → IsConsistent db'
Applies-IsConsistent (refused text s) c = Stores-IsConsistent s c
Applies-IsConsistent (accepted payload qr mid good reg s) c =
    Stores-IsConsistent s (Registers-IsConsistent reg c)

-- ApplyProcessingResult keeps the counters and the status of every batch in agreement with the
-- stored rows, whatever the message is and whichever statements fail.
pub apply_processing_result-IsConsistent :
    (env : Env) (r : ProcessingResult) (db : Db)
    → IsConsistent db
    → IsConsistent (apply_processing_result env r db).1
apply_processing_result-IsConsistent env r db c = elim (apply_processing_result-cases env r db) [
  | inl done ↦ elim (apply_processing_result-Applies env r db _ done) [
    | inl (old, same) ↦ rw same c
    | inr a ↦ Applies-IsConsistent a c
  ]
  | inr (e, broken) ↦ rw broken c
]

-- Tables without batches and results.
pub no_rows-IsConsistent : (db : Db) → db.batches ≡ [] → db.results ≡ [] → IsConsistent db
no_rows-IsConsistent db no_batch no_result = record {
  fits = λ j b h. absurd (ground arith);
  owned = λ j h. ground arith;
}
