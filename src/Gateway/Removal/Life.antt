-- ===== src/Gateway/Removal/Life.antt =====
-- Sequences of the operations on diplomas with removals of universities between them.
use diasoft.Prelude.{
  none-count, ◌≤◌, String, ◌≡◌, refl, ap, inl, inr, Option, Bool, List, [], ◌∷◌, any, count, arith,
  eq_iff, Eq-string, count-append,
}
use diasoft.Gateway.Model.{ProcessingResult, UploadRecord}
use diasoft.Gateway.Payload.{RecordCodec}
use diasoft.Gateway.Store.{BatchRow, ResultRow, Db, Env}
use diasoft.Gateway.Store.Tables.{has_id, IsKeyed, count-update}
use diasoft.Gateway.Results.{apply_processing_result-cases}
use diasoft.Gateway.Results.Effect.{
  Stores, Applies, refused, accepted, listed, added, apply_processing_result-Applies,
}
use diasoft.Gateway.Results.Invariant.{IsConsistent}
use diasoft.Gateway.Batches.{mark_failed, new_batch, create_batch_with_records-cases}
use diasoft.Gateway.Batches.Created.{Creates, create_batch_with_records-Creates}
use diasoft.Gateway.Batches.Lifecycle.{
  Step, upload, publish_fails, receive, revoke, Step-IsConsistent, fail_batch-cases,
  mark_diploma_revoked-cases,
}
use diasoft.Gateway.Accounts.{Surroundings}
use diasoft.Gateway.Removal.{Tables, batch_of, except, delete_cascade}
use diasoft.Gateway.Removal.Erased.{erased, delete_cascade-cases}
use diasoft.Gateway.Removal.Consistent.{delete_cascade-IsConsistent}

count-except_le : {A : Type 0} (p q : A → Bool) (xs : List A) → count p (except q xs) ≤ count p xs
count-except_le p q [] = omega arith
count-except_le p q (x ∷ xs) = ground (arith, count-except_le p q xs)

same_keys :
    (bs cs : List BatchRow)
    → ((j : String) → count (has_id j) cs ≡ count (has_id j) bs)
    → IsKeyed bs
    → IsKeyed cs
unfolding IsKeyed
same_keys bs cs e k j = omega (arith, e j, k j)

Stores-IsKeyed :
    {env : Env} {row : ResultRow} {db db' : Db}
    → Stores env row db db'
    → IsKeyed db.batches
    → IsKeyed db'.batches
Stores-IsKeyed s k = same_keys _ _ s.keys k

Applies-IsKeyed :
    {env : Env} {r : ProcessingResult} {db db' : Db}
    → Applies env r db db'
    → IsKeyed db.batches
    → IsKeyed db'.batches
Applies-IsKeyed (refused text s) k = Stores-IsKeyed s k
Applies-IsKeyed (accepted payload qr mid good (listed h found same) s) k = Stores-IsKeyed s k
Applies-IsKeyed (accepted payload qr mid good (added free absent) s) k = Stores-IsKeyed s k

Creates-IsKeyed :
    {env : Env} {codec : Option RecordCodec} {vuz_id : String} {records : List UploadRecord}
    {db db' : Db}
    → Creates env codec vuz_id records db db'
    → IsKeyed db.batches
    → IsKeyed db'.batches
unfolding IsKeyed
Creates-IsKeyed {env} {vuz_id} {records} {db} {db'} c k j =
    let b = new_batch env vuz_id records in
    let batches = ap (λ (d : Db). count (has_id j) d.batches) c.same in
    ground (
      arith,
      count-append (has_id j) db.batches (b ∷ []),
      k j,
      eq_iff b.id j,
      ap (λ i. any (has_id i) db.batches) {x = b.id} {y = j},
      none-count (has_id j) db.batches,
      c.unused,
    )

Step-IsKeyed : {db db' : Db} → Step db db' → IsKeyed db.batches → IsKeyed db'.batches
Step-IsKeyed {db} (upload env codec vuz_id records n) k =
    elim (create_batch_with_records-cases env codec vuz_id records db) [
      | inl (b, done) ↦
          let (_, c) = create_batch_with_records-Creates env codec vuz_id records b db _ done in
          Creates-IsKeyed c k
      | inr (e, broken) ↦ rw broken k
    ]
Step-IsKeyed {db} (publish_fails env id) k = elim (fail_batch-cases env id db) [
  | inl changed ↦ rw changed (
      same_keys _ _ (λ j. count-update j (has_id id) (mark_failed env.now) (λ b. refl) db.batches)
        k)
  | inr same ↦ rw same k
]
Step-IsKeyed {db} (receive env r) k = elim (apply_processing_result-cases env r db) [
  | inl done ↦ elim (apply_processing_result-Applies env r db _ done) [
    | inl (old, same) ↦ rw same k
    | inr a ↦ Applies-IsKeyed a k
  ]
  | inr (e, broken) ↦ rw broken k
]
Step-IsKeyed {db} (revoke env vuz_id hash) k =
    elim (mark_diploma_revoked-cases env vuz_id hash db) [
      | inl changed ↦ rw changed k
      | inr same ↦ rw same k
    ]

erased-IsKeyed :
    (id : String) (t : Tables) → IsKeyed t.db.batches → IsKeyed (erased id t).db.batches
unfolding IsKeyed
erased-IsKeyed id t k j = omega (arith, count-except_le (has_id j) (batch_of id) t.db.batches, k j)

-- An operation on diplomas, or the removal of a university.
pub data LifeStep (t : Tables) : Tables → Type 0 where
  operate : {db : Db} → Step t.db db → LifeStep t (record t { db = db })
  remove : (env : Surroundings) (id : String) → LifeStep t (delete_cascade env id t).1

pub data Life (start : Tables) : Tables → Type 0 where
  born : Life start start
  step : {t t' : Tables} → Life start t → LifeStep t t' → Life start t'

pub record IsSound (t : Tables) : Type 0 where
  pub keyed : IsKeyed t.db.batches
  pub consistent : IsConsistent t.db

LifeStep-IsSound : {t t' : Tables} → LifeStep t t' → IsSound t → IsSound t'
LifeStep-IsSound (operate s) k = record {
  keyed = Step-IsKeyed s k.keyed;
  consistent = Step-IsConsistent s k.consistent;
}
LifeStep-IsSound {t} (remove env id) k = record {
  keyed = elim (delete_cascade-cases env id t) [
    | inl done ↦ rw done (erased-IsKeyed id t k.keyed)
    | inr (e, broken) ↦ rw broken k.keyed
  ];
  consistent = delete_cascade-IsConsistent env id t k.keyed k.consistent;
}

-- Every sequence of uploads of at least one record, failed publications, received results,
-- revocations and removals of universities keeps the identifiers of the batches a key, and every
-- batch's counter and status in agreement with its stored rows.
pub Life-IsSound : {start t : Tables} → IsSound start → Life start t → IsSound t
Life-IsSound k born = k
Life-IsSound k (step l s) = LifeStep-IsSound s (Life-IsSound k l)
