-- ===== src/Pubver/Repository/Registry.antt =====
-- The contract of the repository, and what the service says of the gateway's registry through it.
use diasoft.Prelude.{
  refl, is_some, Option, none, some, String, ◌≡◌, ◌≢◌, sym, ap, ◌∙◌, inl, inr, some, List, [], ◌∷◌,
  Bool, true, false, ok, err, find, is_empty, ◌==◌, Eq-string, Option-cases, Bool-cases, arith,
  eq_iff,
}
use diasoft.Gateway.Model.{revoked}
use diasoft.Gateway.Store.{HashRow, UniversityRow, Db}
use diasoft.Gateway.Batches.Registry.{has_hash}
use diasoft.Gateway.Removal.{Tables}
use diasoft.Gateway.Removal.Afterwards.{Afterwards, Afterwards-Keeps}
use diasoft.Pubver.Domain.{
  Error, is_record_not_found, is_key_not_found, status_active, DiplomaRecord, VerifyResponse,
}
use diasoft.Pubver.Service.{
  VerificationRepository, VerificationService, verify_payload, to_verify_response,
  apply_encrypted_payload,
}
use diasoft.Pubver.Enc.{EncPayload}
use diasoft.Pubver.Service.Outcome.{verify_payload-valid}
use diasoft.Pubver.Repository.{
  Joined, has_university, join_first, record_of, fetch_one, hash_is, find_by_hash,
  find_by_diploma_number, find_university_verification_key_by_id, repository, key_of,
}

-- What the theorems on the router ask of a repository whose database answers: what a record that was
-- found by a hash is, and which errors there are, for identifiers that are UUIDs.
pub record KeepsContract (is_id : String → Bool) (repo : VerificationRepository) : Type 0 where
  pub finds : (hash : String) (d : DiplomaRecord) → repo.find_by_hash hash ≡ ok d → d.hash ≡ hash
  pub no_record :
      (hash : String) (e : Error) → repo.find_by_hash hash ≡ err e → is_record_not_found e ≡ true
  pub no_number :
      (code number : String) (e : Error)
      → repo.find_by_diploma_number code number ≡ err e
      → is_record_not_found e ≡ true
  pub no_key :
      (id : String) (e : Error)
      → is_id id ≡ true
      → repo.find_university_verification_key_by_id id ≡ err e
      → is_key_not_found e ≡ true
  pub has_key :
      (id key : String)
      → repo.find_university_verification_key_by_id id ≡ ok key
      → is_empty key ≡ false

module _ (us : List UniversityRow) (hash : String) where
  join_first-hash :
      (hs : List HashRow) (j : Joined)
      → join_first (hash_is hash) us hs ≡ some j
      → j.hash.hash ≡ hash
  unfolding join_first
  join_first-hash [] j h = absurd (ground arith)
  join_first-hash (row ∷ hs) j h = elim (Option-cases (find (has_university row) us)) [
    | inl gone ↦ join_first-hash hs j (ground arith)
    | inr (u, found) ↦ elim (Bool-cases (row.hash == hash)) [
      | inl same ↦ ground (arith, eq_iff row.hash hash)
      | inr other ↦ join_first-hash hs j (ground arith)
    ]
  ]

  join_first-find :
      (hs : List HashRow) (row : HashRow) (u : UniversityRow)
      → find (has_hash hash) hs ≡ some row
      → find (has_university row) us ≡ some u
      → join_first (hash_is hash) us hs ≡ some (record { hash = row; university = u })
  unfolding join_first
  join_first-find [] row u h found = absurd (ground arith)
  join_first-find (top ∷ hs) row u h found = elim (Bool-cases (top.hash == hash)) [
    | inl same ↦
        let first : top ≡ row = ground arith in
        ground (arith, ap (λ r. find (has_university r) us) first)
    | inr other ↦ elim (Option-cases (find (has_university top) us)) [
      | inl gone ↦ ground (arith, join_first-find hs row u (ground arith) found)
      | inr (u', there) ↦ ground (arith, join_first-find hs row u (ground arith) found)
    ]
  ]

pub find_by_hash-hash :
    (down : Bool) (db : Db) (hash : String) (d : DiplomaRecord)
    → find_by_hash down db hash ≡ ok d
    → d.hash ≡ hash
unfolding find_by_hash fetch_one record_of
find_by_hash-hash down db hash d h =
    elim (Option-cases (join_first (hash_is hash) db.universities db.hashes)) [
      | inl gone ↦ absurd (ground arith)
      | inr (j, joined) ↦ ground (arith, join_first-hash db.universities hash db.hashes j joined)
    ]

fetch_one_error :
    (test : HashRow → UniversityRow → Bool) (db : Db) (e : Error)
    → fetch_one false test db ≡ err e
    → is_record_not_found e ≡ true
unfolding fetch_one
fetch_one_error test db e h = elim (Option-cases (join_first test db.universities db.hashes)) [
  | inl gone ↦ ground arith
  | inr (j, joined) ↦ absurd (ground arith)
]

key_of_error : (o : Option UniversityRow) (e : Error) → key_of o ≡ err e → is_key_not_found e ≡ true
key_of_error none e h = ground arith
key_of_error (some u) e h = elim (Option-cases u.public_key) [
  | inl gone ↦ ground arith
  | inr (key, set) ↦ ground arith
]

key_of_ok : (o : Option UniversityRow) (key : String) → key_of o ≡ ok key → is_empty key ≡ false
key_of_ok none key h = absurd (ground arith)
key_of_ok (some u) key h = elim (Option-cases u.public_key) [
  | inl gone ↦ absurd (ground arith)
  | inr (key', set) ↦ ground arith
]

-- While the database answers, a record that is found
-- by its hash has that hash, a key that is found is not empty, and the only errors are the documented
-- ones, for identifiers that are UUIDs.
pub repository-KeepsContract :
    (as_uuid : String → Option String) (db : Db)
    → KeepsContract (λ id. is_some (as_uuid id)) (repository false as_uuid db)
unfolding find_by_hash find_by_diploma_number find_university_verification_key_by_id
repository-KeepsContract as_uuid db = record {
  finds = find_by_hash-hash false db;
  no_record = λ hash e h. fetch_one_error _ db e h;
  no_number = λ code number e h. fetch_one_error _ db e h;
  no_key = λ id e is_id h. elim (Option-cases (as_uuid id)) [
    | inl no_id ↦ absurd (ground arith)
    | inr (canonical, read) ↦
        key_of_error (find (λ u. u.id == canonical) db.universities) e (ground arith)
  ];
  has_key = λ id key h. elim (Option-cases (as_uuid id)) [
    | inl no_id ↦ absurd (ground arith)
    | inr (canonical, read) ↦
        key_of_ok (find (λ u. u.id == canonical) db.universities) key (ground arith)
  ];
}

find_by_hash_revoked :
    (down : Bool) (db : Db) (hash : String) (row : HashRow) (u : UniversityRow) (d : DiplomaRecord)
    → find (has_hash hash) db.hashes ≡ some row
    → row.status ≡ revoked
    → find (has_university row) db.universities ≡ some u
    → find_by_hash down db hash ≡ ok d
    → d.status ≡ "revoked"
unfolding find_by_hash fetch_one record_of
find_by_hash_revoked down db hash row u d listed gone known h =
    ground (arith, join_first-find db.universities hash db.hashes row u listed known)

pub answered_hash :
    (d : DiplomaRecord) (p : EncPayload) (r : VerifyResponse)
    → r ≡ to_verify_response (apply_encrypted_payload d p)
    → d.hash ≡ r.hash
unfolding apply_encrypted_payload
answered_hash d p r same = ground arith

-- Once a diploma is revoked, whatever the gateway does to its tables afterwards short of removing the
-- university of the diploma (results, uploads, revocations, links, changes to accounts, keys and universities, removals
-- of others), no token makes the verification service, reading those tables, report it as valid, as long as they
-- still hold the university.
pub verify_payload_revoked :
    {start t : Tables} (hash : String) (row : HashRow) (u : UniversityRow) (v : VerificationService)
    (down : Bool) (as_uuid : String → Option String) (raw : String) (r : VerifyResponse)
    → find (has_hash hash) start.db.hashes ≡ some row
    → row.status ≡ revoked
    → Afterwards row.vuz_id start t
    → find (λ u. u.id == row.vuz_id) t.db.universities ≡ some u
    → v.repo ≡ repository down as_uuid t.db
    → verify_payload v raw ≡ ok r
    → r.valid ≡ true
    → r.hash ≢ hash
verify_payload_revoked {t} hash row u v down as_uuid raw r listed gone reached known same h valid
      equal =
    let (key, payload, w, d, found, is_active, answer) = verify_payload-valid v raw r h valid in
    let found_in_db : find_by_hash down t.db key ≡ ok d =
      sym (ap (λ repo. repo.find_by_hash key) same) ∙ found in
    let key_is_hash : key ≡ hash =
      sym (find_by_hash-hash down t.db key d found_in_db)
      ∙ answered_hash d payload r answer
      ∙ equal in
    let (row', listed', keeps) = Afterwards-Keeps hash row reached refl listed in
    let known' : find (has_university row') t.db.universities ≡ some u =
      ap (λ id. find (λ u. u.id == id) t.db.universities) keeps.same_university ∙ known in
    let is_revoked =
      find_by_hash_revoked down t.db hash row' u d listed' (keeps.stays_revoked gone) known'
        (ap (find_by_hash down t.db) (sym key_is_hash) ∙ found_in_db) in
    ground (arith, eq_iff "revoked" status_active)
