-- ===== src/Gateway/Handlers/Admin.antt =====
-- What administrators do: gateway-service/internal/service/admin.go and internal/transport/http/
-- handler/admin.go.
pub mod Shut
use diasoft.Prelude.{
  ℕ, String, Option, none, some, List, Bool, true, false, not, ◌||◌, Result, ok, err, is_empty, map,
  if◌then◌else◌,
}
use diasoft.Gateway.Model.{Error, no_rows}
use diasoft.Gateway.Store.{Db}
use diasoft.Gateway.Http.{Response, http_error, answered}
use diasoft.Gateway.Accounts.{
  University, Accounts, Surroundings, Call, find_by_id, update_status, activate, upsert_bootstrap,
}
use diasoft.Gateway.Accounts.Lists.{AdminStats, list, stats}
use diasoft.Gateway.Auth.{Hasher}
use diasoft.Gateway.Removal.{Tables, delete_cascade}
use diasoft.Gateway.Handlers.{respond_with, respond_call, internal}

-- EnsureBootstrapAdmin
unfoldable pub ensure_bootstrap_admin : Hasher → Surroundings → String → String → Call Unit
unfolding upsert_bootstrap
ensure_bootstrap_admin hasher env email password db =
    let stored : Result Error Unit × Accounts = elim (hasher.hash password) [
      | err e ↦ (err e, db)
      | ok password_hash ↦ upsert_bootstrap env email password_hash db
    ] in
    if is_empty email || is_empty password then (ok tt, db) else stored

-- UniversityAdminResponse
pub record UniversityAdminResponse : Type 0 where
  pub id : String
  pub vuz_code : String
  pub name : String
  pub inn : String
  pub ogrn : String
  pub email : String
  pub status : String
  pub has_public_key : Bool
  pub created_at : ℕ

abbrev has_text : Option String → Bool
has_text none = false
has_text (some key) = not (is_empty key)

abbrev pub to_university_admin_response : University → UniversityAdminResponse
to_university_admin_response u = record {
  id = u.id;
  vuz_code = u.vuz_code;
  name = u.name;
  inn = u.inn;
  ogrn = u.ogrn;
  email = u.email;
  status = u.status;
  has_public_key = has_text u.public_key;
  created_at = u.created_at;
}

-- sql.ErrNoRows is 404, any other error 500.
abbrev pub lookup_error : {B : Type 0} → String → Error → Response B
lookup_error text no_rows = http_error 404 "university not found"
lookup_error text other = http_error 500 text

abbrev pub university : University → Response UniversityAdminResponse
university u = answered 200 (to_university_admin_response u)

unfoldable pub list_universities :
    Surroundings → Accounts → Response (List UniversityAdminResponse) × Accounts
unfolding list
list_universities env db =
    respond_call (λ us. answered 200 (map to_university_admin_response us))
      (internal "failed to load universities") (list env db)

unfoldable pub get_university : Surroundings → String → Accounts → Response UniversityAdminResponse
get_university env id db =
    let found =
      respond_with university (lookup_error "failed to load university") (find_by_id env id db) in
    if is_empty id then http_error 400 "missing university id" else found

unfoldable pub approve_university :
    Surroundings → String → Accounts → Response UniversityAdminResponse × Accounts
unfolding activate
approve_university env id db =
    let done =
      respond_call university (lookup_error "failed to approve university") (activate env id db) in
    if is_empty id then (http_error 400 "missing university id", db) else done

-- The status that the body asks for, if decodeJSON reads it; the handler has no validator.
unfoldable pub update_university_status :
    Surroundings → String → Option String → Accounts → Response UniversityAdminResponse × Accounts
unfolding update_status
update_university_status env id none db = (
  if is_empty id
      then http_error 400 "missing university id"
      else http_error 400 "invalid json payload",
  db,
)
update_university_status env id (some status) db =
    let done =
      respond_call university (lookup_error "failed to update university status")
        (update_status env id status db) in
    if is_empty id then (http_error 400 "missing university id", db) else done

-- The answer is the identifier, with the status "deleted".
unfoldable pub delete_university : Surroundings → String → Tables → Response String × Tables
unfolding delete_cascade
delete_university env id t =
    let done =
      respond_call (λ _. answered 200 id) (lookup_error "failed to delete university")
        (delete_cascade env id t) in
    if is_empty id then (http_error 400 "missing university id", t) else done

unfoldable pub stats_route : Surroundings → Accounts → Db → Response AdminStats
stats_route env accounts db =
    respond_with (λ s. answered 200 s) (internal "failed to load stats") (stats env accounts db)
