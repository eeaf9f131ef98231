-- ===== src/Gateway/Batches/Registry.antt =====
-- The registry of diplomas through the operations of the service.
use diasoft.Prelude.{
  ℕ, find-update_map, String, ◌≡◌, refl, inl, inr, Option, some, List, [], ◌∷◌, ◌++◌, Bool, find,
  ◌==◌, Eq-string, if◌then◌else◌, arith, ap, find-concat,
}
use diasoft.Gateway.Model.{revoked, UploadRecord, ProcessingResult}
use diasoft.Gateway.Payload.{RecordCodec}
use diasoft.Gateway.Store.{HashRow, Db, Env, transact}
use diasoft.Gateway.Results.{apply_processing_result, apply_processing_result-cases, new_hash}
use diasoft.Gateway.Results.Effect.{
  Applies, refused, accepted, listed, added, apply_processing_result-Applies,
}
use diasoft.Gateway.Batches.{
  fail_batch, create_batch_with_records, create_batch_with_records-cases, is_hash_of, mark_revoked,
  mark_diploma_revoked,
}
use diasoft.Gateway.Batches.Created.{create_batch_with_records-Creates}
use diasoft.Gateway.Batches.Lifecycle.{
  mark_diploma_revoked-cases, Step, upload, publish_fails, receive, revoke,
}

abbrev pub has_hash : String → HashRow → Bool
has_hash hash h = h.hash == hash

-- A diploma that is registered stays so for its university and number, and stays revoked if it was.
pub record Keeps (h h' : HashRow) : Type 0 where
  pub same_university : h'.vuz_id ≡ h.vuz_id
  pub same_number : h'.diploma_number ≡ h.diploma_number
  pub registered : h'.created_at ≡ h.created_at
  pub stays_revoked : h.status ≡ revoked → h'.status ≡ revoked

abbrev pub KeepsAll : Db → Db → Type 0
KeepsAll db db' =
    (hash : String) (h : HashRow)
    → find (has_hash hash) db.hashes ≡ some h
    → (h' : HashRow) × (find (has_hash hash) db'.hashes ≡ some h') × Keeps h h'

pub Keeps-refl : (h : HashRow) → Keeps h h
Keeps-refl h = record {
  same_university = refl;
  same_number = refl;
  registered = refl;
  stays_revoked = λ e. e;
}

pub Keeps-trans : {a b c : HashRow} → Keeps a b → Keeps b c → Keeps a c
Keeps-trans p q = record {
  same_university = ground arith;
  same_number = ground arith;
  registered = ground arith;
  stays_revoked = λ e. q.stays_revoked (p.stays_revoked e);
}

pub KeepsAll-same : (db db' : Db) → db'.hashes ≡ db.hashes → KeepsAll db db'
KeepsAll-same db db' e hash h found = (h, rw e found, Keeps-refl h)

KeepsAll-concat :
    (db db' : Db) (row : HashRow) → db'.hashes ≡ db.hashes ++ row ∷ [] → KeepsAll db db'
KeepsAll-concat db db' row e hash h found =
    (h, rw e (ground (arith, find-concat (has_hash hash) db.hashes row)), Keeps-refl h)

Applies-KeepsAll :
    {env : Env} {r : ProcessingResult} {db db' : Db} → Applies env r db db' → KeepsAll db db'
Applies-KeepsAll {db} {db'} (refused text s) =
    KeepsAll-same db db' (ap (λ (d : Db). d.hashes) s.same)
Applies-KeepsAll {db} {db'} (accepted payload qr mid good (listed h found same) s) =
    KeepsAll-same db db' (ap (λ (d : Db). d.hashes) s.same)
Applies-KeepsAll {env} {r} {db} {db'} (accepted payload qr mid good (added free absent) s) =
    KeepsAll-concat db db' (new_hash env r qr) (ap (λ (d : Db). d.hashes) s.same)

pub KeepsAll-refl : (db : Db) → KeepsAll db db
KeepsAll-refl db = KeepsAll-same db db refl

apply_processing_result-KeepsAll :
    (env : Env) (r : ProcessingResult) (db : Db) → KeepsAll db (apply_processing_result env r db).1
apply_processing_result-KeepsAll env r db = elim (apply_processing_result-cases env r db) [
  | inl done ↦ elim (apply_processing_result-Applies env r db _ done) [
    | inl (old, same) ↦ rw same (KeepsAll-refl db)
    | inr a ↦ Applies-KeepsAll a
  ]
  | inr (e, broken) ↦ rw broken (KeepsAll-refl db)
]

create_batch_with_records-KeepsAll :
    (env : Env) (codec : Option RecordCodec) (vuz_id : String) (records : List UploadRecord)
    (db : Db)
    → KeepsAll db (create_batch_with_records env codec vuz_id records db).1
create_batch_with_records-KeepsAll env codec vuz_id records db =
    elim (create_batch_with_records-cases env codec vuz_id records db) [
      | inl (b, done) ↦
          let (_, c) = create_batch_with_records-Creates env codec vuz_id records b db _ done in
          KeepsAll-same db (create_batch_with_records env codec vuz_id records db).1
            (ap (λ (d : Db). d.hashes) c.same)
      | inr (e, broken) ↦ rw broken (KeepsAll-refl db)
    ]

fail_batch-KeepsAll : (env : Env) (id : String) (db : Db) → KeepsAll db (fail_batch env id db).1
unfolding fail_batch transact
fail_batch-KeepsAll env id db = KeepsAll-same db (fail_batch env id db).1 (ground arith)

mark_revoked-Keeps :
    (now : ℕ) (b : Bool) (h : HashRow) → Keeps h (if b then mark_revoked now h else h)
mark_revoked-Keeps now b h = record {
  same_university = ground arith;
  same_number = ground arith;
  registered = ground arith;
  stays_revoked = λ e. ground arith;
}

mark_diploma_revoked-KeepsAll :
    (env : Env) (vuz_id hash : String) (db : Db)
    → KeepsAll db (mark_diploma_revoked env vuz_id hash db).1
mark_diploma_revoked-KeepsAll env vuz_id hash db =
    elim (mark_diploma_revoked-cases env vuz_id hash db) [
      | inr same ↦ rw same (KeepsAll-refl db)
      | inl changed ↦ rw changed (λ key h found. (
        if is_hash_of vuz_id hash h then mark_revoked env.now h else h,
        ground (
          arith,
          find-update_map (has_hash key) (is_hash_of vuz_id hash) (mark_revoked env.now) (λ _. refl)
              db.hashes,
        ),
        mark_revoked-Keeps env.now (is_hash_of vuz_id hash h) h,
      ))
    ]

pub Step-KeepsAll : {db db' : Db} → Step db db' → KeepsAll db db'
Step-KeepsAll {db} (upload env codec vuz_id records n) =
    create_batch_with_records-KeepsAll env codec vuz_id records db
Step-KeepsAll {db} (publish_fails env id) = fail_batch-KeepsAll env id db
Step-KeepsAll {db} (receive env r) = apply_processing_result-KeepsAll env r db
Step-KeepsAll {db} (revoke env vuz_id hash) = mark_diploma_revoked-KeepsAll env vuz_id hash db
