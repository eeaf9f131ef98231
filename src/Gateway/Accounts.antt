-- ===== src/Gateway/Accounts.antt =====
-- The accounts of the gateway: university_repository.go and admin_repository.go of
-- gateway-service/internal/repository/postgres, over the tables universities, platform_admins,
-- api_keys and university_signing_keys. The status of a university is the text that the column holds.
pub mod Demo
pub mod Lists
use diasoft.Prelude.{
  ℕ, String, Option, none, some, List, [], ◌∷◌, ◌++◌, Bool, true, false, ◌||◌, Result, ok, err, any,
  find, update, ltb, char_count, ◌==◌, Eq-string, if◌then◌else◌, ◌≡◌, inl, inr, arith, Result-cases,
}
use diasoft.Gateway.Model.{Error, no_rows, driver, unique_violation, rejected}

pub record University : Type 0 where
  pub id : String
  pub name : String
  pub vuz_code : String
  pub inn : String
  pub ogrn : String
  pub email : String
  pub password_hash : String
  pub public_key : Option String
  pub status : String
  pub created_at : ℕ

pub record PlatformAdmin : Type 0 where
  pub id : String
  pub email : String
  pub password_hash : String
  pub created_at : ℕ

pub record ApiKey : Type 0 where
  pub id : String
  pub vuz_id : String
  pub name : Option String
  pub key_hash : String
  pub is_active : Bool
  pub created_at : ℕ

-- UniversitySigningKey
pub record SigningKey : Type 0 where
  pub vuz_id : String
  pub encrypted_private_key : String
  pub key_algorithm : String
  pub encryption_algorithm : String
  pub public_key_fingerprint : String
  pub created_at : ℕ
  pub updated_at : ℕ

pub record Accounts : Type 0 where
  pub universities : List University
  pub admins : List PlatformAdmin
  pub api_keys : List ApiKey
  pub signing_keys : List SigningKey

-- RegisterUniversityRequest
pub record Registration : Type 0 where
  pub name : String
  pub vuz_code : String
  pub inn : String
  pub ogrn : String
  pub email : String
  pub password : String

-- The statements, each of which may fail, and the surroundings of a call.
pub data Query : Type 0 where
  select_university select_admin select_key insert_university insert_key : Query
  update_university upsert_admin list_universities list_keys : Query
  select_signing_key upsert_signing_key select_stats : Query
  begin_tx commit_tx delete_links delete_batches delete_hashes delete_university : Query

pub record Surroundings : Type 0 where
  pub now : ℕ
  pub new_id : String
  pub down : Query → Bool

abbrev pub Call : Type 0 → Type 0
Call A = Accounts → Result Error A × Accounts

infixl 5 ◌>>=◌
abbrev pub ◌>>=◌ : {A B : Type 0} → Call A → (A → Call B) → Call B
◌>>=◌ m f db = let (r, db') = m db in elim r [ ok a ↦ f a db' | err e ↦ (err e, db') ]

abbrev pub pure : {A : Type 0} → A → Call A
pure a db = (ok a, db)

abbrev pub of_result : {A : Type 0} → Result Error A → Call A
of_result r db = (r, db)

-- A call that only reads.
abbrev pub reads : {A : Type 0} → (Accounts → Result Error A) → Call A
reads f db = (f db, db)

-- A statement with its effect, unless the driver fails.
abbrev pub statement : {A : Type 0} → Surroundings → Query → Call A → Call A
statement env q m db = elim (env.down q) [ true ↦ (err driver, db) | false ↦ m db ]

-- A SELECT of one row.
abbrev pub row_of : {A : Type 0} → Surroundings → Query → Option A → Result Error A
row_of env q row = elim (env.down q) [
  | true ↦ err driver
  | false ↦ elim row [ none ↦ err no_rows | some a ↦ ok a ]
]

abbrev pub has_id : String → University → Bool
has_id id u = u.id == id

abbrev pub has_email : String → University → Bool
has_email email u = u.email == email

-- The UNIQUE constraints of the table.
abbrev pub clashes : Registration → University → Bool
clashes r u = u.vuz_code == r.vuz_code || u.inn == r.inn || u.ogrn == r.ogrn || u.email == r.email

abbrev pub too_long : Registration → Bool
too_long r =
    ltb 255 (char_count r.name)
    || ltb 20 (char_count r.vuz_code)
    || ltb 12 (char_count r.inn)
    || ltb 15 (char_count r.ogrn)
    || ltb 255 (char_count r.email)

abbrev pub new_university : Surroundings → Registration → String → University
new_university env r password_hash = record {
  id = env.new_id;
  name = r.name;
  vuz_code = r.vuz_code;
  inn = r.inn;
  ogrn = r.ogrn;
  email = r.email;
  password_hash = password_hash;
  public_key = none;
  status = "pending";
  created_at = env.now;
}

unfoldable pub create_university : Surroundings → Registration → String → Call University
create_university env r password_hash = statement env insert_university λ db.
    if too_long r || ltb 255 (char_count password_hash)
    then (err rejected, db)
    else if any (clashes r) db.universities || any (has_id env.new_id) db.universities
    then (err unique_violation, db)
    else (
      ok (new_university env r password_hash),
      record db { universities = db.universities ++ new_university env r password_hash ∷ [] },
    )

unfoldable pub find_by_email : Surroundings → String → Accounts → Result Error University
find_by_email env email db = row_of env select_university (find (has_email email) db.universities)

unfoldable pub find_by_id : Surroundings → String → Accounts → Result Error University
find_by_id env id db = row_of env select_university (find (has_id id) db.universities)

abbrev pub is_status : String → Bool
is_status s = s == "pending" || s == "active" || s == "blocked"

abbrev pub set_status : String → University → University
set_status status u = record u { status = status }

-- UPDATE ... RETURNING; the CHECK of the column is made for a row that is updated.
unfoldable pub update_status : Surroundings → String → String → Call University
update_status env id status = statement env update_university λ db.
    elim (find (has_id id) db.universities) [
      | none ↦ (err no_rows, db)
      | some u ↦
          if is_status status
          then (
            ok (set_status status u),
            record db { universities = update (has_id id) (set_status status) db.universities },
          )
          else (err rejected, db)
    ]

unfoldable pub activate : Surroundings → String → Call University
unfolding update_status
activate env id = update_status env id "active"

abbrev pub set_public_key : String → University → University
set_public_key key u = record u { public_key = some key }

unfoldable pub update_public_key : Surroundings → String → String → Call Unit
update_public_key env id key = statement env update_university λ db.
    if any (has_id id) db.universities
    then (
      ok tt,
      record db { universities = update (has_id id) (set_public_key key) db.universities },
    )
    else (err no_rows, db)

unfoldable pub find_admin_by_email : Surroundings → String → Accounts → Result Error PlatformAdmin
find_admin_by_email env email db = row_of env select_admin (find (λ a. a.email == email) db.admins)

abbrev set_password : String → PlatformAdmin → PlatformAdmin
set_password hash a = record a { password_hash = hash }

-- INSERT ... ON CONFLICT (email) DO UPDATE
unfoldable pub upsert_bootstrap : Surroundings → String → String → Call Unit
upsert_bootstrap env email hash = statement env upsert_admin λ db.
    if ltb 255 (char_count email) || ltb 255 (char_count hash)
    then (err rejected, db)
    else if any (λ a. a.email == email) db.admins
    then (
      ok tt,
      record db { admins = update (λ a. a.email == email) (set_password hash) db.admins },
    )
    else (
      ok tt,
      record db {
        admins =
            db.admins
            ++ record { id = env.new_id; email = email; password_hash = hash; created_at = env.now }
              ∷ [];
      },
    )
