-- ===== src/Gateway/Results/Settle.antt =====
-- What the UPDATEs of a batch that follow every stored row come to.
use mathlib.Core.Option
use diasoft.Prelude.{
  ℕ, String, ◌≡◌, refl, ok, ltb, find, count, update, ◌==◌, Eq-string, if◌then◌else◌, arith, eq_iff,
}
use diasoft.Gateway.Store.{BatchRow, Db, Env}
use diasoft.Gateway.Store.Tables.{has_id, is_error_of, find-update, count-update}
use diasoft.Gateway.Results.{bump, close, finish}

-- One more record is processed, and the last one closes the batch.
abbrev pub settled : ℕ → ℕ → BatchRow → BatchRow
settled now errors b =
    if ltb (bump b).processed_records b.total_records then bump b else close now errors (bump b)

pub record Settles (env : Env) (id : String) (db db' : Db) : Type 0 where
  pub at_batch :
      (j : String)
      → find (has_id j) db'.batches ≡ (
          if j == id
          then Option.map
              (settled env.now (count (is_error_of id) db.results))
              (find (has_id j) db.batches)
          else find (has_id j) db.batches)
  pub same : db' ≡ record db { batches = db'.batches }
  pub keys : (j : String) → count (has_id j) db'.batches ≡ count (has_id j) db.batches

module _ (env : Env) (id : String) (db db' : Db) (h : finish env id db ≡ ok (tt, db')) where
  settle_at :
      (j : String)
      → find (has_id j) db'.batches ≡ (
          if j == id
          then Option.map
              (settled env.now (count (is_error_of id) db.results))
              (find (has_id j) db.batches)
          else find (has_id j) db.batches)
  unfolding finish
  settle_at j =
      let bumped = update (has_id id) bump db.batches in
      let shut = close env.now (count (is_error_of id) db.results) in
      ground (
        arith,
        find-update j id bump (λ b. refl) db.batches,
        find-update id id bump (λ b. refl) db.batches,
        find-update j id shut (λ b. refl) bumped,
        eq_iff j id,
        eq_iff id id,
      )

  settle_same : db' ≡ record db { batches = db'.batches }
  unfolding finish
  settle_same = ground arith

  settle_keys : (j : String) → count (has_id j) db'.batches ≡ count (has_id j) db.batches
  unfolding finish
  settle_keys j =
      let bumped = update (has_id id) bump db.batches in
      let shut = close env.now (count (is_error_of id) db.results) in
      ground (
        arith,
        count-update j (has_id id) bump (λ b. refl) db.batches,
        count-update j (has_id id) shut (λ b. refl) bumped,
      )

  pub finish_lem : Settles env id db db'
  finish_lem = record { at_batch = settle_at; same = settle_same; keys = settle_keys }
