-- ===== src/Gateway/ApiKeys.antt =====
-- The keys that a university gives its programs: internal/repository/postgres/
-- api_key_repository.go and internal/service/api_keys.go of gateway-service.
pub mod Resolved
use diasoft.Prelude.{
  ℕ, String, Option, none, some, List, [], ◌∷◌, ◌++◌, Bool, true, false, ◌&&◌, ◌||◌, Result, ok,
  err, any, find, ltb, leb, select, order_by, map, char_count, ◌==◌, Eq-string, if◌then◌else◌,
}
use diasoft.Gateway.Model.{Error, unique_violation, rejected}
use diasoft.Gateway.Accounts.{
  University, ApiKey, Accounts, Surroundings, Call, ◌>>=◌, pure, of_result, statement, row_of,
  list_keys, insert_key, select_key, has_id,
}

abbrev pub new_key : Surroundings → String → Option String → String → ApiKey
new_key env vuz_id name key_hash = record {
  id = env.new_id;
  vuz_id = vuz_id;
  name = name;
  key_hash = key_hash;
  is_active = true;
  created_at = env.now;
}

abbrev name_too_long : Option String → Bool
name_too_long none = false
name_too_long (some name) = ltb 100 (char_count name)

-- INSERT INTO api_keys: the lengths of the columns, the reference to the university,
-- UNIQUE(key_hash).
unfoldable pub create_api_key : Surroundings → String → Option String → String → Call ApiKey
create_api_key env vuz_id name key_hash = statement env insert_key λ db.
    if name_too_long name || ltb 255 (char_count key_hash)
    then (err rejected, db)
    else if any (λ k. k.key_hash == key_hash) db.api_keys
    then (err unique_violation, db)
    else if any (has_id vuz_id) db.universities
    then (
      ok (new_key env vuz_id name key_hash),
      record db { api_keys = db.api_keys ++ new_key env vuz_id name key_hash ∷ [] },
    )
    else (err rejected, db)

-- The columns of a university that the query selects; the code is not one of them.
abbrev pub owner_of : University → University
owner_of u = record u { vuz_code = "" }

-- The first key with the hash whose university is there and active.
unfoldable pub active_owner : String → List University → List ApiKey → Option (University × ApiKey)
active_owner key_hash us [] = none
active_owner key_hash us (k ∷ ks) =
    let rest = active_owner key_hash us ks in
    if k.key_hash == key_hash && k.is_active
    then elim (find (λ u. u.id == k.vuz_id && u.status == "active") us) [
      | none ↦ rest
      | some u ↦ some (owner_of u, k)
    ]
    else rest

unfoldable pub find_active_university_by_hash :
    Surroundings → String → Accounts → Result Error (University × ApiKey)
find_active_university_by_hash env key_hash db =
    row_of env select_key (active_owner key_hash db.universities db.api_keys)

-- APIKeySummary
pub record Summary : Type 0 where
  pub id : String
  pub name : Option String
  pub is_active : Bool
  pub created_at : ℕ

abbrev summary_of : ApiKey → Summary
summary_of k = record {
  id = k.id;
  name = k.name;
  is_active = k.is_active;
  created_at = k.created_at;
}

abbrev newer : ApiKey → ApiKey → Bool
newer a b = leb b.created_at a.created_at

abbrev pub is_shown : String → ApiKey → Bool
is_shown vuz_id k = k.vuz_id == vuz_id && k.is_active

unfoldable pub list_active_by_vuz : Surroundings → String → Call (List Summary)
list_active_by_vuz env vuz_id =
    statement env list_keys
      λ db. (ok (map summary_of (order_by newer (select (is_shown vuz_id) db.api_keys))), db)

-- CreateAPIKeyResponse
pub record Created : Type 0 where
  pub id : String
  pub name : Option String
  pub api_key : String
  pub created_at : ℕ

-- APIKeyService: SHA-256 in hexadecimal, and the text that generateAPIKey gives, if the reader of
-- random bytes does not fail.
pub record Service : Type 0 where
  pub hash_api_key : String → String
  pub generate_api_key : Result Error String

unfoldable pub create : Service → Surroundings → String → Option String → Call Created
unfolding create_api_key
create s env vuz_id name = do
  raw_key ← of_result s.generate_api_key
  item ← create_api_key env vuz_id name (s.hash_api_key raw_key)
  pure (record { id = item.id; name = item.name; api_key = raw_key; created_at = item.created_at })

unfoldable pub resolve_active_university :
    Service → Surroundings → String → Accounts → Result Error (University × ApiKey)
resolve_active_university s env plain_key =
    find_active_university_by_hash env (s.hash_api_key plain_key)
