-- ===== src/Gateway/Consumer/Completes.antt =====
-- What becomes of a batch whose results have all been committed.
use diasoft.Prelude.{
  ℕ, All, if◌then◌else◌, zero, suc, ◌+◌, ◌≤◌, ◌<◌, String, ◌≡◌, ◌≢◌, refl, inl, inr, Option, none,
  some, List, [], ◌∷◌, Bool, true, false, ◌&&◌, any, find, count, ltb, ℤ, pos, negsuc, ◌⊎◌,
  int_eq_iff, ◌==◌, Eq-string, Eq-int, arith, eq_iff, Option-cases, Bool-cases, any-count,
  if◌then◌else◌,
}
use diasoft.Gateway.Model.{ProcessingResult, processing}
use diasoft.Gateway.Store.{BatchRow, ResultRow, Db, Env}
use diasoft.Gateway.Store.Tables.{is_result, has_id, of_batch}
use diasoft.Gateway.Results.{apply_processing_result, apply_processing_result-cases}
use diasoft.Gateway.Results.Invariant.{IsConsistent, apply_processing_result-IsConsistent}
use diasoft.Gateway.Consumer.{
  Message, Event, stopped, fetch_failed, fetched, Consumer, commit_message, receive_message, start,
}
use diasoft.Gateway.Consumer.Commits.{IsSettled, start-AllSettled}

abbrev is_below : ℕ → ℤ → Bool
is_below n (pos i) = ltb i n
is_below n other = false

-- The row of a batch has an index below the bound.
abbrev in_front : String → ℕ → ResultRow → Bool
in_front j n r = of_batch j r && is_below n r.record_index

next_below :
    (n : ℕ) (i : ℤ)
    → (if is_below (suc n) i then 1 else 0)
      ≡ (if is_below n i then 1 else 0) + (if i == pos n then 1 else 0)
next_below n (pos i) = ground arith
next_below n (negsuc i) = ground arith

count_next :
    (j : String) (n : ℕ) (rs : List ResultRow)
    → count (in_front j (suc n)) rs ≡ count (in_front j n) rs + count (is_result j (pos n)) rs
count_next j n [] = refl
count_next j n (r ∷ rs) = ground (arith, next_below n r.record_index, count_next j n rs)

count_front :
    (j : String) (n : ℕ) (rs : List ResultRow) → count (in_front j n) rs ≤ count (of_batch j) rs
count_front j n [] = omega arith
count_front j n (r ∷ rs) = ground (arith, count_front j n rs)

-- As many rows as there are indices that have one.
all_there :
    (j : String) (n : ℕ) (rs : List ResultRow)
    → ((i : ℕ) → i < n → any (is_result j (pos i)) rs ≡ true)
    → n ≤ count (in_front j n) rs
all_there j zero rs h = omega arith
all_there j (suc n) rs h =
    let rest = all_there j n rs (λ i less. h i (omega arith)) in
    let last = h n (omega arith) in
    ground (arith, count_next j n rs, any-count (is_result j (pos n)) rs)

module _ (decode : String → Option ProcessingResult) where
  received :
      (env : Env) (m : Message) (up : Bool) (c : Consumer)
      → ((receive_message decode env m up c).db ≡ c.db)
        ⊎ ((r : ProcessingResult) × ((receive_message decode env m up c).db
              ≡ (apply_processing_result env r c.db).1))
  unfolding receive_message commit_message
  received env m up c = elim (Option-cases (decode m.value)) [
    | inl bad ↦ elim (Bool-cases up) [
      | inl goes ↦ inl (ground arith)
      | inr lost ↦ inl (ground arith)
    ]
    | inr (r, read) ↦ inr (
      r,
      elim (apply_processing_result-cases env r c.db) [
        | inl done ↦ elim (Bool-cases up) [ inl goes ↦ ground arith | inr lost ↦ ground arith ]
        | inr (e, broken) ↦ ground arith
      ],
    )
  ]

  receive_message-IsConsistent :
      (env : Env) (m : Message) (up : Bool) (c : Consumer)
      → IsConsistent c.db
      → IsConsistent (receive_message decode env m up c).db
  receive_message-IsConsistent env m up c h = elim (received env m up c) [
    | inl same ↦ rw same h
    | inr (r, applied) ↦ rw applied (apply_processing_result-IsConsistent env r c.db h)
  ]

  pub start-IsConsistent :
      (es : List Event) (c : Consumer) → IsConsistent c.db → IsConsistent (start decode es c).db
  unfolding start
  start-IsConsistent [] c h = h
  start-IsConsistent (stopped ∷ es) c h = h
  start-IsConsistent (fetch_failed ∷ es) c h = start-IsConsistent es c h
  start-IsConsistent (fetched env m up ∷ es) c h =
      start-IsConsistent es (receive_message decode env m up c)
        (receive_message-IsConsistent env m up c h)

  -- The message is the result of that record of the batch.
  abbrev pub is_result_of : String → ℕ → Message → Bool
  is_result_of j i m = elim (decode m.value) [
    | none ↦ false
    | some r ↦ r.batch_id == j && r.record_index == pos i
  ]

  settled_there :
      (db : Db) (j : String) (i : ℕ) (ms : List Message)
      → All (IsSettled decode db) ms
      → any (is_result_of j i) ms ≡ true
      → any (is_result j (pos i)) db.results ≡ true
  settled_there db j i [] h there = absurd (ground arith)
  settled_there db j i (m ∷ ms) (inl bad, h) there = settled_there db j i ms h (ground arith)
  settled_there db j i (m ∷ ms) (inr (r, read, row), h) there =
      elim (Bool-cases (r.batch_id == j && r.record_index == pos i)) [
        | inr other ↦ settled_there db j i ms h (ground arith)
        | inl same ↦
            let batch : r.batch_id ≡ j = ground (arith, eq_iff r.batch_id j) in
            let index : r.record_index ≡ pos i =
              ground (arith, int_eq_iff r.record_index (pos i)) in
            rw (← batch) (rw (← index) row)
      ]

  -- Once the loop of the consumer, from consistent tables, has committed a result for every record of a
  -- batch, whatever it met in between, the batch is no longer processing.
  pub start_completes :
      (es : List Event) (c : Consumer) (j : String) (b : BatchRow)
      → IsConsistent c.db
      → All (IsSettled decode c.db) c.committed
      → find (has_id j) (start decode es c).db.batches ≡ some b
      → ((i : ℕ)
          → i < b.total_records
          → any (is_result_of j i) (start decode es c).committed ≡ true)
      → b.status ≢ processing
  start_completes es c j b consistent settled found all_committed open_still =
      let last = start decode es c in
      let rows = start-AllSettled decode es c settled in
      let fits = (start-IsConsistent es c consistent).fits j b found in
      let there =
        all_there j b.total_records last.db.results
          (λ i less. settled_there last.db j i last.committed rows (all_committed i less)) in
      absurd (
        omega (
          arith,
          fits.counted,
          fits.unfinished open_still,
          there,
          count_front j b.total_records last.db.results,
        ))
