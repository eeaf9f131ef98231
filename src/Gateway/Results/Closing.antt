-- ===== src/Gateway/Results/Closing.antt =====
-- What the last result of a batch makes of the batch.
use diasoft.Prelude.{
  true, ◌&&◌, ◌==◌, ℕ, none, ◌≤◌, ◌+◌, ◌++◌, ◌∷◌, [], ◌∙◌, ap, ◌≡◌, refl, inl, inr, some, false, ok,
  any, find, count, ltb, Eq-string, if◌then◌else◌, arith, eq_iff, sym,
}
use diasoft.Gateway.Model.{ParsedQr, ProcessingResult, row_ok, row_error, failed, completed}
use diasoft.Gateway.Store.{BatchRow, ResultRow, Db, Env}
use diasoft.Gateway.Store.Tables.{is_result, has_id, is_error_of}
use diasoft.Gateway.Results.{apply_processing_result, or_now, close, bump}
use diasoft.Gateway.Results.Effect.{
  Stores, refused, accepted, Registers, listed, added, apply_processing_result-Applies,
}

-- The batch b' that was b, closed by the rows of its results alone.
pub record Closes (env : Env) (b : BatchRow) (db' : Db) (b' : BatchRow) : Type 0 where
  pub found : find (has_id b.id) db'.batches ≡ some b'
  pub processed : b'.processed_records ≡ b.processed_records + 1
  pub status : b'.status ≡ (
      if ltb 0 (
        count
          (λ r. r.batch_id == b.id && elim r.status [ row_ok ↦ false | row_error ↦ true ])
          db'.results)
      then failed
      else completed)
  pub ends_now : b.completed_at ≡ none → b'.completed_at ≡ some env.now
  pub end_stays : (t : ℕ) → b.completed_at ≡ some t → b'.completed_at ≡ some t

module _ (env : Env) (b : BatchRow) (last : b.total_records ≤ b.processed_records + 1) where
  closed_after :
      {row : ResultRow} {db db' : Db}
      → Stores env row db db'
      → row.batch_id ≡ b.id
      → find (has_id b.id) db.batches ≡ some b
      → (b' : BatchRow) × Closes env b db' b'
  closed_after {row} {db} {db'} s same there =
      let errors = count (is_error_of row.batch_id) (db.results ++ row ∷ []) in
      let counted : errors ≡ count (is_error_of b.id) db'.results =
        rw s.results (ap (λ i. count (is_error_of i) (db.results ++ row ∷ [])) same) in
      let own = eq_iff b.id row.batch_id in
      (
        close env.now errors (bump b),
        record {
          found = ground (arith, s.at_batch b.id);
          processed = refl;
          status = rw (sym counted) refl;
          ends_now = λ no_end. ap (or_now env.now) no_end;
          end_stays = λ t ended. ap (or_now env.now) ended;
        },
      )

  registered_batches :
      {r : ProcessingResult} {qr : ParsedQr} {db mid : Db}
      → Registers env r qr db mid
      → mid.batches ≡ db.batches
  registered_batches (listed h known same) = refl
  registered_batches (added free fresh) = refl

  -- The last result of a batch closes it by the rows of its results alone: as failed if one of them
  -- is an error and else as completed, whatever its status was before, also where it had been marked
  -- as failed; it ends now, if it had no end, and else the time of its earlier end stays.
  pub apply_processing_result-Closes :
      (r : ProcessingResult) (db db' : Db)
      → r.batch_id ≡ b.id
      → find (has_id b.id) db.batches ≡ some b
      → any (is_result r.batch_id r.record_index) db.results ≡ false
      → apply_processing_result env r db ≡ (ok tt, db')
      → (b' : BatchRow) × Closes env b db' b'
  apply_processing_result-Closes r db db' same there first done =
      elim (apply_processing_result-Applies env r db db' done) [
        | inl (old, unchanged) ↦ absurd (ground arith)
        | inr (refused text s) ↦ closed_after s same there
        | inr (accepted payload qr mid good reg s) ↦
            closed_after s same (ap (λ bs. find (has_id b.id) bs) (registered_batches reg) ∙ there)
      ]
