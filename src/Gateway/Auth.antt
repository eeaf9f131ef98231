-- ===== src/Gateway/Auth.antt =====
-- Registration and login: gateway-service/internal/service/auth.go.
pub mod Login
use diasoft.Prelude.{
  ℕ, String, Bool, true, false, not, Result, ok, err, ◌>>=◌, ◌==◌, Eq-string, if◌then◌else◌,
}
use diasoft.Gateway.Model.{
  Error, no_rows, unique_violation, invalid_credentials, duplicate_entity, university_pending,
  university_blocked, university_inactive,
}
use diasoft.Gateway.Accounts.{
  University, PlatformAdmin, Accounts, Registration, Surroundings, Call, create_university,
  find_by_email, find_admin_by_email,
}
use diasoft.Gateway.Token.{Manager, issue_access_token}

-- bcrypt, behind the interface PasswordHasher
pub record Hasher : Type 0 where
  pub hash : String → Result Error String
  pub matches : String → String → Bool

pub record Service : Type 0 where
  pub hasher : Hasher
  pub tokens : Manager

-- RegisterUniversityResponse
pub record Registered : Type 0 where
  pub id : String
  pub status : String
  pub created_at : ℕ

abbrev duplicate_as : Error → Error
duplicate_as unique_violation = duplicate_entity
duplicate_as other = other

abbrev registered : University → Registered
registered u = record { id = u.id; status = u.status; created_at = u.created_at }

unfoldable pub register : Service → Surroundings → Registration → Call Registered
unfolding create_university
register s env r db = elim (s.hasher.hash r.password) [
  | err e ↦ (err e, db)
  | ok password_hash ↦
      let (result, db') = create_university env r password_hash db in
      elim result [ ok u ↦ (ok (registered u), db') | err e ↦ (err (duplicate_as e), db') ]
]

-- AuthResponse, less the constant token type
pub record Session : Type 0 where
  pub access_token : String
  pub expires_at : ℕ
  pub role : String
  pub status : String
  pub vuz_id : String
  pub email : String

unfoldable pub login_admin : Service → Surroundings → PlatformAdmin → String → Result Error Session
login_admin s env a password =
    if not (s.hasher.matches password a.password_hash) then err invalid_credentials else do
      (token, expires_at) ← issue_access_token s.tokens env.now a.id "" a.email "admin" "active"
      ok (record {
        access_token = token;
        expires_at = expires_at;
        role = "admin";
        status = "active";
        vuz_id = "";
        email = a.email;
      })

abbrev session_of : University → String → ℕ → Session
session_of u token expires_at = record {
  access_token = token;
  expires_at = expires_at;
  role = "university";
  status = u.status;
  vuz_id = u.id;
  email = u.email;
}

unfoldable pub login_university :
    Service → Surroundings → University → String → Result Error Session
login_university s env u password =
    if not (s.hasher.matches password u.password_hash)
    then err invalid_credentials
    else if u.status == "pending"
    then err university_pending
    else if u.status == "blocked"
    then err university_blocked
    else if not (u.status == "active")
    then err university_inactive
    else do
      (token, expires_at) ←
          issue_access_token s.tokens env.now u.id u.id u.email "university" u.status
      ok (session_of u token expires_at)

abbrev credentials_error : Error → Error
credentials_error no_rows = invalid_credentials
credentials_error other = other

unfoldable pub login_as_university :
    Service → Surroundings → String → String → Accounts → Result Error Session
login_as_university s env email password db = elim (find_by_email env email db) [
  | err e ↦ err (credentials_error e)
  | ok u ↦ login_university s env u password
]

-- Only the lack of an administrator leads on to the universities.
abbrev after_admin_error : Error → Result Error Session → Result Error Session
after_admin_error no_rows rest = rest
after_admin_error other rest = err other

unfoldable pub login : Service → Surroundings → String → String → Accounts → Result Error Session
login s env email password db =
    let as_university = login_as_university s env email password db in
    elim (find_admin_by_email env email db) [
      | ok a ↦ login_admin s env a password
      | err e ↦ after_admin_error e as_university
    ]
