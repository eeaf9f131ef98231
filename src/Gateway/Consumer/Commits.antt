-- ===== src/Gateway/Consumer/Commits.antt =====
-- What the commits of the consumer stand for.
use diasoft.Prelude.{
  String, ◌≡◌, ap, ◌⊎◌, inl, inr, Option, none, some, List, [], ◌∷◌, ◌++◌, Bool, true, false, ok,
  err, any, All, All-append, Option-cases, arith,
}
use diasoft.Gateway.Model.{Error, ProcessingResult}
use diasoft.Gateway.Store.{ResultRow, Db, Env}
use diasoft.Gateway.Store.Tables.{is_result}
use diasoft.Gateway.Results.{apply_processing_result, apply_processing_result-cases}
use diasoft.Gateway.Results.Effect.{
  Applies, refused, accepted, apply_processing_result-Applies, listed, added,
}
use diasoft.Gateway.Results.Progress.{applied_is_there}
use diasoft.Gateway.Consumer.{
  Message, Event, stopped, fetch_failed, fetched, Consumer, commit_message, receive_message, start,
}

any_more :
    (p : ResultRow → Bool) (rs : List ResultRow) (r : ResultRow)
    → any p rs ≡ true
    → any p (rs ++ r ∷ []) ≡ true
any_more p [] r h = absurd (ground arith)
any_more p (x ∷ rs) r h = ground (arith, any_more p rs r)

-- Rows of results stay.
applied_keeps :
    {env : Env} {r : ProcessingResult} {db db' : Db} (p : ResultRow → Bool)
    → Applies env r db db'
    → any p db.results ≡ true
    → any p db'.results ≡ true
applied_keeps {db} p (refused text s) h = rw s.results (any_more p db.results _ h)
applied_keeps {db} p (accepted payload qr mid good (listed o found same) s) h =
    rw s.results (any_more p db.results _ h)
applied_keeps {db} p (accepted payload qr mid good (added free absent) s) h =
    rw s.results (any_more p db.results _ h)

apply_processing_result_keeps :
    (env : Env) (r : ProcessingResult) (db : Db) (p : ResultRow → Bool)
    → any p db.results ≡ true
    → any p (apply_processing_result env r db).1.results ≡ true
apply_processing_result_keeps env r db p h = elim (apply_processing_result-cases env r db) [
  | inl done ↦ elim (apply_processing_result-Applies env r db _ done) [
    | inl (old, same) ↦ rw same h
    | inr a ↦ applied_keeps p a h
  ]
  | inr (e, broken) ↦ rw broken h
]

-- The message is not a result at all, or its row is in the table.
abbrev pub IsSettled : (String → Option ProcessingResult) → Db → Message → Type 0
IsSettled decode db m =
    (decode m.value ≡ none)
    ⊎ ((r : ProcessingResult) × (decode m.value ≡ some r)
        × (any (is_result r.batch_id r.record_index) db.results ≡ true))

module _ (decode : String → Option ProcessingResult) where
  IsSettled-stays :
      (env : Env) (r : ProcessingResult) (db : Db) (ms : List Message)
      → All (IsSettled decode db) ms
      → All (IsSettled decode (apply_processing_result env r db).1) ms
  IsSettled-stays env r db [] h = tt
  IsSettled-stays env r db (m ∷ ms) (inl bad, h) = (inl bad, IsSettled-stays env r db ms h)
  IsSettled-stays env r db (m ∷ ms) (inr (r', read, there), h) = (
    inr (r', read, apply_processing_result_keeps env r db _ there),
    IsSettled-stays env r db ms h,
  )

  abbrev AllSettled : Consumer → Type 0
  AllSettled c = All (IsSettled decode c.db) c.committed

  commit_message-AllSettled :
      (m : Message) (up : Bool) (c : Consumer)
      → IsSettled decode c.db m
      → AllSettled c
      → AllSettled (commit_message m up c)
  unfolding commit_message
  commit_message-AllSettled m true c s h =
      All-append (IsSettled decode c.db) c.committed (m ∷ []) h (s, tt)
  commit_message-AllSettled m false c s h = h

  module _ (env : Env) (m : Message) (up : Bool) (c : Consumer) where
    receive_malformed :
        decode m.value ≡ none → receive_message decode env m up c ≡ commit_message m up c
    unfolding receive_message
    receive_malformed bad = ground arith

    receive_applied :
        (r : ProcessingResult)
        → decode m.value ≡ some r
        → apply_processing_result env r c.db ≡ (ok tt, (apply_processing_result env r c.db).1)
        → receive_message decode env m up c
          ≡ commit_message m up (record c { db = (apply_processing_result env r c.db).1 })
    unfolding receive_message
    receive_applied r read done = ground arith

    receive_refused :
        (r : ProcessingResult) (e : Error)
        → decode m.value ≡ some r
        → apply_processing_result env r c.db ≡ (err e, c.db)
        → receive_message decode env m up c ≡ c
    unfolding receive_message
    receive_refused r e read broken = ground arith

  receive_message-AllSettled :
      (env : Env) (m : Message) (up : Bool) (c : Consumer)
      → AllSettled c
      → AllSettled (receive_message decode env m up c)
  receive_message-AllSettled env m up c h = elim (Option-cases (decode m.value)) [
    | inl bad ↦ rw (receive_malformed env m up c bad) (commit_message-AllSettled m up c (inl bad) h)
    | inr (r, read) ↦ elim (apply_processing_result-cases env r c.db) [
      | inr (e, broken) ↦ rw (receive_refused env m up c r e read broken) h
      | inl done ↦
          let db' = (apply_processing_result env r c.db).1 in
          let there : any (is_result r.batch_id r.record_index) db'.results ≡ true =
            elim (apply_processing_result-Applies env r c.db db' done) [
              | inl (old, same) ↦ rw same old
              | inr a ↦ applied_is_there a
            ] in
          let stays = IsSettled-stays env r c.db c.committed h in
          rw (receive_applied env m up c r read done)
            (commit_message-AllSettled m up (record c { db = db' }) (inr (r, read, there)) stays)
    ]
  ]

  -- Whatever the loop meets, a message whose commit went through is malformed or has its row in the
  -- table, if that holds at the start.
  pub start-AllSettled :
      (es : List Event) (c : Consumer)
      → All (IsSettled decode c.db) c.committed
      → All (IsSettled decode (start decode es c).db) (start decode es c).committed
  unfolding start
  start-AllSettled [] c h = h
  start-AllSettled (stopped ∷ es) c h = h
  start-AllSettled (fetch_failed ∷ es) c h = start-AllSettled es c h
  start-AllSettled (fetched env m up ∷ es) c h =
      start-AllSettled es (receive_message decode env m up c)
        (receive_message-AllSettled env m up c h)

  -- A message whose handling fails leaves no trace: the loop goes on with the next one, without a row
  -- and without a commit, as if the message had not come.
  pub start_skip :
      (env : Env) (m : Message) (up : Bool) (es : List Event) (c : Consumer) (r : ProcessingResult)
      (e : Error)
      → decode m.value ≡ some r
      → (apply_processing_result env r c.db).0 ≡ err e
      → start decode (fetched env m up ∷ es) c ≡ start decode es c
  unfolding start
  start_skip env m up es c r e read h = elim (apply_processing_result-cases env r c.db) [
    | inl done ↦ absurd (ground arith)
    | inr (e', broken) ↦ ap (start decode es) (receive_refused env m up c r e' read broken)
  ]
