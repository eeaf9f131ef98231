-- ===== src/Pubver/Repository/Answers.antt =====
-- What the queries of the verification service answer, against the promises of
-- pubver/internal/repository/repository.go.
use diasoft.Prelude.{
  String, ◌≡◌, ◌⊎◌, refl, inl, inr, Option, none, some, List, [], ◌∷◌, Bool, true, false, ◌&&◌,
  Result, ok, err, any, find, is_empty, ◌==◌, Eq-string, arith, Option-cases, Bool-cases,
}
use diasoft.Gateway.Model.{DiplomaStatus, active, revoked}
use diasoft.Gateway.Store.{HashRow, UniversityRow, Db}
use diasoft.Pubver.Domain.{Error, record_not_found, key_not_found, foreign, DiplomaRecord}
use diasoft.Pubver.Service.{VerificationRepository}
use diasoft.Pubver.Repository.{
  Joined, join_first, record_of, status_text, fetch_one, find_by_hash, find_by_diploma_number,
  find_university_verification_key_by_id, repository, key_of,
}

-- The diploma has its university in the table, and with it passes the test.
abbrev pub meets : Db → (HashRow → UniversityRow → Bool) → HashRow → Bool
meets db test h = elim (find (λ u. u.id == h.vuz_id) db.universities) [
  | none ↦ false
  | some u ↦ test h u
]

-- The record of a diploma and its university.
pub record Tells (h : HashRow) (u : UniversityRow) (d : DiplomaRecord) : Type 0 where
  pub hash : d.hash ≡ h.hash
  pub diploma_number : d.diploma_number ≡ h.diploma_number
  pub status :
      ((h.status ≡ active) × (d.status ≡ "active"))
      ⊎ ((h.status ≡ revoked) × (d.status ≡ "revoked"))
  pub university_code : d.university_code ≡ u.vuz_code
  pub university_name : d.university_name ≡ u.name
  pub revoked_at : d.revoked_at ≡ h.revoked_at

-- What was found is the first diploma that meets the test.
pub record IsFirst (db : Db) (test : HashRow → UniversityRow → Bool) (d : DiplomaRecord)
    : Type 0 where
  pub row : HashRow
  pub university : UniversityRow
  pub first : find (meets db test) db.hashes ≡ some row
  pub known : find (λ u. u.id == row.vuz_id) db.universities ≡ some university
  pub passes : test row university ≡ true
  pub tells : Tells row university d

-- Either no diploma meets the test, and the answer is that there is none, or a record of one is given.
abbrev pub AnswersFor : Db → (HashRow → UniversityRow → Bool) → Result Error DiplomaRecord → Type 0
AnswersFor db test r =
    ((any (meets db test) db.hashes ≡ false) × (r ≡ err record_not_found))
    ⊎ ((d : DiplomaRecord) × (r ≡ ok d) × IsFirst db test d)

-- The university of an identifier has no key, or this one.
abbrev pub HasKey : Option UniversityRow → Result Error String → Type 0
HasKey none r = r ≡ err key_not_found
HasKey (some u) r =
    ((u.public_key ≡ none) × (r ≡ err key_not_found))
    ⊎ ((key : String) × (u.public_key ≡ some key)
        × (((is_empty key ≡ true) × (r ≡ err key_not_found))
            ⊎ ((is_empty key ≡ false) × (r ≡ ok key))))

-- A text that is no identifier is an error of the query.
abbrev pub AnswersKey : Db → Option String → Result Error String → Type 0
AnswersKey db none r = r ≡ err foreign
AnswersKey db (some id) r = HasKey (find (λ u. u.id == id) db.universities) r

pub record Answers (as_uuid : String → Option String) (db : Db) (repo : VerificationRepository)
    : Type 0 where
  pub by_hash : (hash : String) → AnswersFor db (λ h u. h.hash == hash) (repo.find_by_hash hash)
  pub by_number :
      (code number : String)
      → AnswersFor db
          (λ h u. u.vuz_code == code && h.diploma_number == number)
          (repo.find_by_diploma_number code number)
  pub by_id :
      (id : String) → AnswersKey db (as_uuid id) (repo.find_university_verification_key_by_id id)

module _ (db : Db) (test : HashRow → UniversityRow → Bool) where
  join_first-none :
      (hs : List HashRow)
      → join_first test db.universities hs ≡ none
      → any (meets db test) hs ≡ false
  unfolding join_first
  join_first-none [] h = refl
  join_first-none (row ∷ hs) h =
      elim (Option-cases (find (λ u. u.id == row.vuz_id) db.universities)) [
        | inl gone ↦ ground (arith, join_first-none hs)
        | inr (u, known) ↦ ground (arith, join_first-none hs)
      ]

  join_first-some :
      (hs : List HashRow) (j : Joined)
      → join_first test db.universities hs ≡ some j
      → (find (meets db test) hs ≡ some j.hash)
        × (find (λ u. u.id == j.hash.vuz_id) db.universities ≡ some j.university)
        × (test j.hash j.university ≡ true)
  unfolding join_first
  join_first-some [] j h = absurd (ground arith)
  join_first-some (row ∷ hs) j h =
      elim (Option-cases (find (λ u. u.id == row.vuz_id) db.universities)) [
        | inl gone ↦
            let (first, known, passes) = join_first-some hs j (ground arith) in
            (ground arith, known, passes)
        | inr (u, there) ↦ elim (Bool-cases (test row u)) [
          | inl here ↦
              let same : record { hash = row; university = u } ≡ j = ground arith in
              rw (← same) (ground arith, there, here)
          | inr other ↦
              let (first, known, passes) = join_first-some hs j (ground arith) in
              (ground arith, known, passes)
        ]
      ]

  told_status :
      (s : DiplomaStatus)
      → ((s ≡ active) × (status_text s ≡ "active")) ⊎ ((s ≡ revoked) × (status_text s ≡ "revoked"))
  told_status active = inl (refl, refl)
  told_status revoked = inr (refl, refl)

  record_of-Tells : (j : Joined) → Tells j.hash j.university (record_of db j)
  unfolding record_of
  record_of-Tells j = record {
    hash = refl;
    diploma_number = refl;
    status = told_status j.hash.status;
    university_code = refl;
    university_name = refl;
    revoked_at = refl;
  }

  fetch_one-AnswersFor : AnswersFor db test (fetch_one false test db)
  unfolding fetch_one
  fetch_one-AnswersFor = elim (Option-cases (join_first test db.universities db.hashes)) [
    | inl gone ↦ inl (join_first-none db.hashes gone, ground arith)
    | inr (j, joined) ↦
        let (first, known, passes) = join_first-some db.hashes j joined in
        inr (
          record_of db j,
          ground arith,
          record {
            row = j.hash;
            university = j.university;
            first = first;
            known = known;
            passes = passes;
            tells = record_of-Tells j;
          },
        )
  ]

key_of-HasKey : (o : Option UniversityRow) → HasKey o (key_of o)
key_of-HasKey none = refl
key_of-HasKey (some u) = elim (Option-cases u.public_key) [
  | inl gone ↦ inl (gone, ground arith)
  | inr (key, set) ↦ elim (Bool-cases (is_empty key)) [
    | inl empty ↦ inr (key, set, inl (empty, ground arith))
    | inr full ↦ inr (key, set, inr (full, ground arith))
  ]
]

found_key :
    (db : Db) (o : Option String)
    → AnswersKey db o
        (elim o [ none ↦ err foreign | some c ↦ key_of (find (λ u. u.id == c) db.universities) ])
found_key db none = refl
found_key db (some c) = key_of-HasKey (find (λ u. u.id == c) db.universities)

-- While the database answers, the queries keep the promises of the interface. By a hash, or by a university's
-- code and a number, they give ErrDiplomaRecordNotFound exactly where no diploma with these has its university in the
-- table, and else the record of the first that has, with its status and its university. By an identifier, they give
-- ErrUniversityVerificationKeyNotFound exactly where there is no such university or it has no key or an empty one, and
-- else its key; a text that is no identifier is an error of the query.
pub repository-Answers :
    (as_uuid : String → Option String) (db : Db) → Answers as_uuid db (repository false as_uuid db)
unfolding find_by_hash find_by_diploma_number find_university_verification_key_by_id
repository-Answers as_uuid db = record {
  by_hash = λ hash. fetch_one-AnswersFor db (λ h u. h.hash == hash);
  by_number = λ code number.
      fetch_one-AnswersFor db (λ h u. u.vuz_code == code && h.diploma_number == number);
  by_id = λ id. found_key db (as_uuid id);
}
