-- ===== src/Pubver/Repository.antt =====
-- pubver/internal/repository/postgres/verification_repository.go: the registry that the gateway
-- writes, as the verification service reads it.
pub mod Answers
pub mod Registry
pub mod Removed
use diasoft.Prelude.{
  ℕ, String, Option, none, some, List, [], ◌∷◌, Bool, true, false, not, ◌&&◌, Result, ok, err, leb,
  find, is_empty, ◌==◌, Eq-string, if◌then◌else◌,
}
use diasoft.Gateway.Model.{RowStatus, row_ok, row_error, DiplomaStatus, active, revoked}
use diasoft.Gateway.Store.{HashRow, ResultRow, UniversityRow, Db}
use diasoft.Pubver.Domain.{
  Error, record_not_found, key_not_found, foreign, status_active, DiplomaRecord,
}
use diasoft.Pubver.Service.{VerificationRepository}

abbrev pub status_text : DiplomaStatus → String
status_text active = status_active
status_text revoked = "revoked"

abbrev is_ok_row : RowStatus → Bool
is_ok_row row_ok = true
is_ok_row row_error = false

-- br.diploma_hash = dh.hash AND br.status = 'ok'
abbrev produced : String → ResultRow → Bool
produced hash r = elim r.diploma_hash [ none ↦ false | some h ↦ h == hash && is_ok_row r.status ]

abbrev newer : ResultRow → Option ResultRow → ResultRow
newer r none = r
newer r (some best) = if leb best.created_at r.created_at then r else best

-- ORDER BY br.created_at DESC LIMIT 1; of rows with the same time, which the order leaves open, the
-- first one.
latest : String → List ResultRow → Option ResultRow
latest hash [] = none
latest hash (r ∷ rs) =
    let best = latest hash rs in if produced hash r then some (newer r best) else best

abbrev qr_of : Option ResultRow → Option String
qr_of none = none
qr_of (some r) = r.qr_payload

-- A row of the join.
pub record Joined : Type 0 where
  pub hash : HashRow
  pub university : UniversityRow

abbrev pub has_university : HashRow → UniversityRow → Bool
has_university h u = u.id == h.vuz_id

-- FROM diploma_hashes dh JOIN universities u ON u.id = dh.vuz_id WHERE … LIMIT 1, for a test of the
-- joined row
unfoldable pub join_first :
    (HashRow → UniversityRow → Bool) → List UniversityRow → List HashRow → Option Joined
join_first test us [] = none
join_first test us (h ∷ hs) =
    let rest = join_first test us hs in
    elim (find (has_university h) us) [
      | none ↦ rest
      | some u ↦ if test h u then some (record { hash = h; university = u }) else rest
    ]

unfoldable pub record_of : Db → Joined → DiplomaRecord
unfolding latest
record_of db j = record {
  hash = j.hash.hash;
  diploma_number = j.hash.diploma_number;
  status = status_text j.hash.status;
  university_code = j.university.vuz_code;
  university_name = j.university.name;
  graduate_year = none;
  specialty = none;
  degree = none;
  faculty = none;
  qr_payload = qr_of (latest j.hash.hash db.results);
  revoked_at = j.hash.revoked_at;
}

abbrev fetched : Db → Option Joined → Result Error DiplomaRecord
fetched db none = err record_not_found
fetched db (some j) = ok (record_of db j)

-- The query for one record: `down` tells whether the driver fails.
unfoldable pub fetch_one : Bool → (HashRow → UniversityRow → Bool) → Db → Result Error DiplomaRecord
unfolding join_first record_of
fetch_one down test db =
    if down then err foreign else fetched db (join_first test db.universities db.hashes)

abbrev pub hash_is : String → HashRow → UniversityRow → Bool
hash_is hash h u = h.hash == hash

unfoldable pub find_by_hash : Bool → Db → String → Result Error DiplomaRecord
unfolding fetch_one
find_by_hash down db hash = fetch_one down (hash_is hash) db

abbrev has_number : String → String → HashRow → UniversityRow → Bool
has_number vuz_code number h u = u.vuz_code == vuz_code && h.diploma_number == number

unfoldable pub find_by_diploma_number : Bool → Db → String → String → Result Error DiplomaRecord
unfolding fetch_one
find_by_diploma_number down db vuz_code number = fetch_one down (has_number vuz_code number) db

abbrev pub key_of : Option UniversityRow → Result Error String
key_of none = err key_not_found
key_of (some u) = elim u.public_key [
  | none ↦ err key_not_found
  | some key ↦ if is_empty key then err key_not_found else ok key
]

-- The column is a UUID: `as_uuid` reads a text as PostgreSQL does, in the form of the rows, and a text
-- that is none is an error of the query.
unfoldable pub find_university_verification_key_by_id :
    Bool → (String → Option String) → Db → String → Result Error String
find_university_verification_key_by_id down as_uuid db id =
    if down then err foreign else elim (as_uuid id) [
      | none ↦ err foreign
      | some canonical ↦ key_of (find (λ u. u.id == canonical) db.universities)
    ]

abbrev pub repository : Bool → (String → Option String) → Db → VerificationRepository
repository down as_uuid db = record {
  find_by_hash = find_by_hash down db;
  find_by_diploma_number = find_by_diploma_number down db;
  find_university_verification_key_by_id = find_university_verification_key_by_id down as_uuid db;
}
