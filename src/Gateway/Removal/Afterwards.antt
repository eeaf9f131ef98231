-- ===== src/Gateway/Removal/Afterwards.antt =====
-- Everything that the gateway does to its tables, but the removal of one university, and what it leaves of a
-- diploma of that university.
use diasoft.Prelude.{
  String, ◌≡◌, ◌≢◌, ap, ◌∙◌, inl, inr, some, List, [], ◌∷◌, Bool, false, find, Eq-string, arith,
  eq_iff, ℤ, Bool-cases, Result-cases, Option-cases,
}
use diasoft.Gateway.Store.{HashRow, UniversityRow, Db, Env, select_link}
use diasoft.Gateway.Students.{
  Service, create_share_link, resolve_share_link, find_student_by_hash, has_token,
}
use diasoft.Gateway.Token.{parse_share_token}
use diasoft.Gateway.Batches.Lifecycle.{Step}
use diasoft.Gateway.Batches.Registry.{
  has_hash, Keeps, KeepsAll-same, Keeps-refl, Keeps-trans, Step-KeepsAll,
}
use diasoft.Gateway.Accounts.{Accounts, Surroundings}
use diasoft.Gateway.Removal.{Tables, diploma_of, except, delete_cascade}
use diasoft.Gateway.Removal.Erased.{delete_cascade-cases}

-- One operation: one on batches and diplomas, the creation or the use of a share link, the removal of
-- another university, or any change at all to administrators, keys and universities, as registration,
-- approval, changes of status and the creation of keys make.
pub data Act (vuz_id : String) : Tables → Tables → Type 0 where
  operate :
      {accounts : Accounts} {db db' : Db}
      → Step db db'
      → Act vuz_id
          (record { accounts = accounts; db = db })
          (record { accounts = accounts; db = db' })
  share :
      (s : Service) (env : Env) (hash : String) (ttl : ℤ) (t : Tables)
      → Act vuz_id t (record t { db = (create_share_link s env hash ttl t.db).1 })
  open_link :
      (s : Service) (env : Env) (token : String) (t : Tables)
      → Act vuz_id t (record t { db = (resolve_share_link s env token t.db).1 })
  remove_other :
      (env : Surroundings) (id : String) (t : Tables)
      → id ≢ vuz_id
      → Act vuz_id t (delete_cascade env id t).1
  administer :
      (accounts : Accounts) (us : List UniversityRow) (t : Tables)
      → Act vuz_id t (record { accounts = accounts; db = record t.db { universities = us } })

pub data Afterwards (vuz_id : String) (start : Tables) : Tables → Type 0 where
  at_once : Afterwards vuz_id start start
  then_act :
      {t t' : Tables} → Afterwards vuz_id start t → Act vuz_id t t' → Afterwards vuz_id start t'

find_student-same :
    (env : Env) (hash : String) (db : Db) → (find_student_by_hash env hash db).1.hashes ≡ db.hashes
unfolding find_student_by_hash
find_student-same env hash db = ground arith

share-same :
    (s : Service) (env : Env) (hash : String) (ttl : ℤ) (db : Db)
    → (create_share_link s env hash ttl db).1.hashes ≡ db.hashes
unfolding create_share_link
share-same s env hash ttl db = ground (arith, find_student-same env hash db)

open-same :
    (s : Service) (env : Env) (token : String) (db : Db)
    → (resolve_share_link s env token db).1.hashes ≡ db.hashes
unfolding resolve_share_link
open-same s env token db = elim (Result-cases (parse_share_token s.tokens env.now token)) [
  | inr (e, refused) ↦ ground arith
  | inl (claims, read) ↦ elim (Bool-cases (env.down select_link)) [
    | inl broken ↦ ground arith
    | inr up ↦ elim (Option-cases (find (has_token token) db.links)) [
      | inl gone ↦ ground arith
      | inr (link, found) ↦ ground (arith, find_student-same env claims.diploma_hash db)
    ]
  ]
]

-- A row that is not deleted is still the first with its hash.
find-except :
    (hash : String) (q : HashRow → Bool) (hs : List HashRow) (row : HashRow)
    → find (has_hash hash) hs ≡ some row
    → q row ≡ false
    → find (has_hash hash) (except q hs) ≡ some row
find-except hash q [] row found stays = absurd (ground arith)
find-except hash q (h ∷ hs) row found stays = elim (Bool-cases (has_hash hash h)) [
  | inl first ↦
      let same : h ≡ row = ground arith in
      let kept : q h ≡ false = ap q same ∙ stays in ground arith
  | inr other ↦ ground (arith, find-except hash q hs row)
]

-- The diploma of the university that is registered under a hash stays so, and stays revoked if it was.
Act-Keeps :
    {vuz_id : String} {t t' : Tables} (hash : String) (row : HashRow)
    → Act vuz_id t t'
    → row.vuz_id ≡ vuz_id
    → find (has_hash hash) t.db.hashes ≡ some row
    → (row' : HashRow) × (find (has_hash hash) t'.db.hashes ≡ some row') × Keeps row row'
Act-Keeps hash row (operate s) own found = Step-KeepsAll s hash row found
Act-Keeps hash row (share s env x ttl t) own found =
    KeepsAll-same t.db (create_share_link s env x ttl t.db).1 (share-same s env x ttl t.db) hash row
      found
Act-Keeps hash row (open_link s env token t) own found =
    KeepsAll-same t.db (resolve_share_link s env token t.db).1 (open-same s env token t.db) hash row
      found
Act-Keeps {vuz_id} hash row (remove_other env id t other) own found =
    elim (delete_cascade-cases env id t) [
      | inr (e, broken) ↦ rw broken (row, found, Keeps-refl row)
      | inl done ↦
          let stays : diploma_of id row ≡ false =
            ground (arith, eq_iff row.vuz_id id, own, other) in
          rw done
            (row, find-except hash (diploma_of id) t.db.hashes row found stays, Keeps-refl row)
    ]
Act-Keeps hash row (administer accounts us t) own found = (row, found, Keeps-refl row)

pub Afterwards-Keeps :
    {vuz_id : String} {start t : Tables} (hash : String) (row : HashRow)
    → Afterwards vuz_id start t
    → row.vuz_id ≡ vuz_id
    → find (has_hash hash) start.db.hashes ≡ some row
    → (row' : HashRow) × (find (has_hash hash) t.db.hashes ≡ some row') × Keeps row row'
Afterwards-Keeps hash row at_once own found = (row, found, Keeps-refl row)
Afterwards-Keeps hash row (then_act l a) own found =
    let (mid, found_mid, first) = Afterwards-Keeps hash row l own found in
    let (last, found_last, second) = Act-Keeps hash mid a (first.same_university ∙ own) found_mid in
    (last, found_last, Keeps-trans first second)
