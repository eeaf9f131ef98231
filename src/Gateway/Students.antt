-- ===== src/Gateway/Students.antt =====
-- Share links of diplomas: gateway-service/internal/service/student.go, and FindStudentByHash,
-- CreateShareLink, FindShareLink and IncrementShareLinkUsage of internal/repository/postgres/
-- diploma_repository.go.
pub mod Handler
pub mod Links
pub mod Search
use diasoft.Prelude.{
  ℕ, suc, ◌+◌, ◌≡◌, String, Option, none, some, List, [], ◌∷◌, ◌++◌, Bool, true, false, not, ◌&&◌,
  Result, ok, err, ℤ, is_positive, ltb, any, find, update, ◌==◌, Eq-string, if◌then◌else◌,
}
use diasoft.Gateway.Model.{
  Error, no_rows, driver, unique_violation, rejected, diploma_not_found, share_link_expired,
  invalid_share_token, DiplomaStatus, row_ok, RowStatus, ParsedQr,
}
use diasoft.Gateway.Store.{
  Stmt, ResultRow, HashRow, LinkRow, Db, Env, select_link, insert_link, update_link, select_student,
}
use diasoft.Gateway.Store.Tables.{is_error}
use diasoft.Gateway.Results.{parse_qr_payload}
use diasoft.Gateway.Token.{Manager, ShareClaims, issue_share_token, parse_share_token}

-- StudentSearchResult
pub record Student : Type 0 where
  pub diploma_hash : String
  pub diploma_number : String
  pub full_name : String
  pub specialty : String
  pub degree : String
  pub faculty : String
  pub year : ℤ
  pub university_id : String
  pub university_name : String
  pub status : DiplomaStatus
  pub created_at : ℕ

-- What one call of a repository method gives: its result and the tables behind it.
abbrev pub Call : Type 0 → Type 0
Call A = Db → Result Error A × Db

infixl 5 ◌>>=◌
abbrev pub ◌>>=◌ : {A B : Type 0} → Call A → (A → Call B) → Call B
◌>>=◌ m f db = let (r, db') = m db in elim r [ ok a ↦ f a db' | err e ↦ (err e, db') ]

abbrev pub pure : {A : Type 0} → A → Call A
pure a db = (ok a, db)

abbrev pub fail : {A : Type 0} → Error → Call A
fail e db = (err e, db)

abbrev pub of_result : {A : Type 0} → Result Error A → Call A
of_result r db = (r, db)

-- sql.ErrNoRows becomes the given error, and any other error stays.
abbrev pub no_rows_as : Error → Error → Error
no_rows_as e no_rows = e
no_rows_as e other = other

abbrev pub rows_as : {A : Type 0} → Error → Call A → Call A
rows_as e m db =
    let (r, db') = m db in elim r [ ok a ↦ (ok a, db') | err e' ↦ (err (no_rows_as e e'), db') ]

-- The SELECT of one row.
abbrev row_or : {A : Type 0} → Env → Stmt → (Db → Option A) → Call A
row_or env s query db = elim (env.down s) [
  | true ↦ (err driver, db)
  | false ↦ elim (query db) [ none ↦ (err no_rows, db) | some a ↦ (ok a, db) ]
]

abbrev shows : String → ResultRow → Bool
shows hash r = elim r.diploma_hash [ none ↦ false | some h ↦ h == hash && not (is_error r.status) ]

-- ORDER BY created_at DESC LIMIT 1, among the rows that pass the test.
newest : (ResultRow → Bool) → List ResultRow → Option ResultRow
newest p [] = none
newest p (r ∷ rs) = elim (newest p rs) [
  | none ↦ if p r then some r else none
  | some later ↦ if p r && not (ltb r.created_at later.created_at) then some r else some later
]

pub record Joined : Type 0 where
  pub hash : HashRow
  pub qr_payload : Option String
  pub university_id : String
  pub university_name : String

-- JOIN LATERAL and JOIN: without a result or a university there is no row.
unfoldable pub join_diploma : HashRow → Db → Option Joined
unfolding newest
join_diploma h db = elim (newest (shows h.hash) db.results) [
  | none ↦ none
  | some r ↦ elim (find (λ u. u.id == h.vuz_id) db.universities) [
    | none ↦ none
    | some u ↦ some (record {
      hash = h;
      qr_payload = r.qr_payload;
      university_id = u.id;
      university_name = u.name;
    })
  ]
]

unfoldable pub join_student : String → Db → Option Joined
unfolding join_diploma
join_student hash db = elim (find (λ h. h.hash == hash) db.hashes) [
  | none ↦ none
  | some h ↦ join_diploma h db
]

-- The scan of NULL into a string is an error of the driver.
abbrev pub scan_text : Option String → Result Error String
scan_text none = err driver
scan_text (some s) = ok s

abbrev pub student_of : Joined → ParsedQr → Student
student_of j qr = record {
  diploma_hash = j.hash.hash;
  diploma_number = qr.diploma_number;
  full_name = qr.full_name;
  specialty = qr.specialty;
  degree = qr.degree;
  faculty = qr.faculty;
  year = qr.year;
  university_id = j.university_id;
  university_name = j.university_name;
  status = j.hash.status;
  created_at = j.hash.created_at;
}

unfoldable pub find_student_by_hash : Env → String → Call Student
find_student_by_hash env hash = do
  j ← row_or env select_student (join_student hash)
  payload ← of_result (scan_text j.qr_payload)
  qr ← of_result (parse_qr_payload env.decoder payload)
  pure (student_of j qr)

-- INSERT INTO share_links: the reference to the diploma, UNIQUE(token).
pub insert_share_link : Env → String → String → ℕ → Call Unit
insert_share_link env hash token expires_at db = elim (env.down insert_link) [
  | true ↦ (err driver, db)
  | false ↦
      if any (λ l. l.token == token) db.links
      then (err unique_violation, db)
      else if any (λ h. h.hash == hash) db.hashes
      then (
        ok tt,
        record db {
          links =
              db.links
              ++ record {
                id = env.new_id;
                diploma_hash = hash;
                token = token;
                expires_at = expires_at;
                used_count = 0;
                created_at = env.now;
              }
                ∷ [];
        },
      )
      else (err rejected, db)
]

abbrev pub has_token : String → LinkRow → Bool
has_token token l = l.token == token

pub find_share_link : Env → String → Call LinkRow
find_share_link env token = row_or env select_link (λ db. find (has_token token) db.links)

abbrev pub used : LinkRow → LinkRow
used l = record l { used_count = l.used_count + 1 }

pub increment_share_link_usage : Env → String → Call Unit
increment_share_link_usage env token db = elim (env.down update_link) [
  | true ↦ (err driver, db)
  | false ↦ (ok tt, record db { links = update (has_token token) used db.links })
]

pub record Service : Type 0 where
  pub tokens : Manager
  pub default_ttl : ℤ

-- ShareLinkResponse, less the URL, which is the base, "/share/" and the token.
pub record ShareLink : Type 0 where
  pub token : String
  pub expires_at : ℕ

abbrev chosen_ttl : Service → ℤ → ℤ
chosen_ttl s ttl = if is_positive ttl then ttl else s.default_ttl

unfoldable pub create_share_link : Service → Env → String → ℤ → Call ShareLink
unfolding insert_share_link
create_share_link s env hash ttl = do
  _ ← rows_as diploma_not_found (find_student_by_hash env hash)
  (token, expires_at) ← of_result (issue_share_token s.tokens env.now hash (chosen_ttl s ttl))
  _ ← insert_share_link env hash token expires_at
  pure (record { token = token; expires_at = expires_at })

-- SharedDiplomaResponse: the student and the end of the link
pub record SharedDiploma : Type 0 where
  pub student : Student
  pub expires_at : ℕ

-- The checks of a link that was found, against the claims of its token.
check_link : Env → String → LinkRow → ShareClaims → Call SharedDiploma
unfolding increment_share_link_usage
check_link env token link claims db =
    if ltb link.expires_at env.now
    then (err share_link_expired, db)
    else if not (link.diploma_hash == claims.diploma_hash)
    then (err invalid_share_token, db)
    else (do
      student ← rows_as diploma_not_found (find_student_by_hash env claims.diploma_hash)
      _ ← increment_share_link_usage env token
      pure (record { student = student; expires_at = link.expires_at }))
        db

unfoldable pub resolve_share_link : Service → Env → String → Call SharedDiploma
unfolding check_link find_share_link
resolve_share_link s env token db = elim (parse_share_token s.tokens env.now token) [
  | err _ ↦ (err invalid_share_token, db)
  | ok claims ↦
      (do
        link ← rows_as invalid_share_token (find_share_link env token)
        check_link env token link claims)
        db
]
