-- ===== src/Gateway/Access.antt =====
-- Who a request is made by: gateway-service/internal/transport/http/middleware/middleware.go over
-- internal/authctx/context.go, with ResolveActiveUniversity and hashAPIKey of internal/service/
-- api_keys.go.
pub mod Guards
use diasoft.Prelude.{
  ℕ, Char, code, String, Option, none, some, Bool, true, false, not, ◌&&◌, Result, ok, err,
  trim_space, is_empty, equal_fold, ◌==◌, Eq-string, Eq-nat, if◌then◌else◌,
}
use diasoft.Gateway.Model.{Error, no_rows}
use diasoft.Gateway.Accounts.{University, ApiKey, Accounts, Surroundings, find_by_id}
use diasoft.Gateway.ApiKeys.{find_active_university_by_hash}
use diasoft.Gateway.Token.{Manager, AccessClaims, parse_access_token}

-- The headers that the middleware reads; a missing header reads as the empty text.
pub record Headers : Type 0 where
  pub authorization : String
  pub x_api_key : String

-- The values of authctx.
pub record Ctx : Type 0 where
  pub role : Option String
  pub university_id : Option String
  pub admin_id : Option String
  pub email : Option String
  pub api_key_id : Option String

abbrev pub background : Ctx
background = record {
  role = none;
  university_id = none;
  admin_id = none;
  email = none;
  api_key_id = none;
}

abbrev pub with_university : Ctx → String → String → Ctx
with_university ctx id email = record ctx {
  role = some "university";
  university_id = some id;
  email = some email;
}

abbrev pub with_admin : Ctx → String → String → Ctx
with_admin ctx id email = record ctx { role = some "admin"; admin_id = some id; email = some email }

abbrev pub with_api_key_id : Ctx → String → Ctx
with_api_key_id ctx id = record ctx { api_key_id = some id }

abbrev has_role : String → Option String → Bool
has_role role none = false
has_role role (some r) = r == role

abbrev pub is_university : Ctx → Bool
is_university ctx = has_role "university" ctx.role

abbrev pub is_admin : Ctx → Bool
is_admin ctx = has_role "admin" ctx.role

-- What a middleware does: it answers with an error, or hands the request on.
pub data Outcome : Type 0 where
  http_error : ℕ → String → Outcome
  next : Ctx → Outcome

-- strings.SplitN(s, " ", 2), if it gives two parts
unfoldable pub cut_space : String → Option (String × String)
cut_space String.[] = none
cut_space (String.◌∷◌ c s) =
    let later = cut_space s in
    if code c == 32
    then some ("", s)
    else elim later [ none ↦ none | some (a, b) ↦ some (String.◌∷◌ c a, b) ]

-- The second part of a header whose first is the scheme.
unfoldable pub after_scheme : String → String → Option String
unfolding cut_space
after_scheme scheme header = elim (cut_space header) [
  | none ↦ none
  | some (name, value) ↦ if equal_fold name scheme then some value else none
]

unfoldable pub extract_bearer_token : Headers → Option String
unfolding after_scheme
extract_bearer_token h = after_scheme "Bearer" h.authorization

unfoldable pub extract_api_key : Headers → String
unfolding after_scheme
extract_api_key h =
    let value = trim_space h.x_api_key in
    if not (is_empty value)
    then value
    else elim (after_scheme "ApiKey" h.authorization) [ none ↦ "" | some key ↦ key ]

-- The tokens, the tables and their surroundings, and SHA-256 in hexadecimal. `checked` is whether
-- the resolver of universities is there.
pub record Middleware : Type 0 where
  pub tokens : Manager
  pub env : Surroundings
  pub accounts : Accounts
  pub hash : String → String
  pub checked : Bool

abbrev pub or_subject : AccessClaims → String
or_subject c = if c.vuz_id == "" then c.subject else c.vuz_id

-- ensureUniversityIsActive, in front of what follows it.
abbrev pub status_check : University → Outcome → Outcome
status_check u rest =
    if not (u.status == "active") then http_error 403 "university account is not active" else rest

abbrev lookup_error : Error → Outcome
lookup_error no_rows = http_error 401 "university not found"
lookup_error other = http_error 500 "failed to resolve university"

unfoldable pub ensure_university_is_active : Middleware → String → Outcome → Outcome
unfolding find_by_id
ensure_university_is_active m id rest = elim m.checked [
  | false ↦ rest
  | true ↦ elim (find_by_id m.env id m.accounts) [
    | err e ↦ lookup_error e
    | ok u ↦ status_check u rest
  ]
]

-- The cases of the role of a token.
unfoldable pub by_role : Middleware → Ctx → AccessClaims → Outcome
by_role m ctx c =
    if c.role == "admin"
    then next (with_admin ctx c.subject c.email)
    else if c.role == "university"
    then if not (c.status == "active")
      then http_error 403 "university account is not active"
      else ensure_university_is_active m (or_subject c)
          (next (with_university ctx (or_subject c) c.email))
    else http_error 401 "unsupported token role"

unfoldable pub jwt : Middleware → Headers → Ctx → Outcome
unfolding parse_access_token
jwt m h ctx = elim (extract_bearer_token h) [
  | none ↦ http_error 401 "missing bearer token"
  | some token ↦ elim (parse_access_token m.tokens m.env.now token) [
    | err _ ↦ http_error 401 "invalid token"
    | ok c ↦ by_role m ctx c
  ]
]

unfoldable pub admin : Ctx → Outcome
admin ctx = if is_admin ctx then next ctx else http_error 403 "admin access required"

unfoldable pub university : Ctx → Outcome
university ctx = if is_university ctx then next ctx else http_error 403 "university access required"

abbrev key_error : Error → Outcome
key_error no_rows = http_error 401 "invalid api key"
key_error other = http_error 500 "failed to resolve api key"

unfoldable pub by_api_key : Middleware → Headers → Ctx → Outcome
by_api_key m h ctx =
    let key = extract_api_key h in
    if is_empty key
    then http_error 401 "missing credentials"
    else elim (find_active_university_by_hash m.env (m.hash key) m.accounts) [
      | err e ↦ key_error e
      | ok (u, k) ↦ next (with_api_key_id (with_university ctx u.id u.email) k.id)
    ]

abbrev is_active_university : AccessClaims → Bool
is_active_university c = c.role == "university" && c.status == "active"

unfoldable pub university_or_api_key : Middleware → Headers → Ctx → Outcome
unfolding parse_access_token
university_or_api_key m h ctx = elim (extract_bearer_token h) [
  | none ↦ by_api_key m h ctx
  | some token ↦ elim (parse_access_token m.tokens m.env.now token) [
    | err _ ↦ by_api_key m h ctx
    | ok c ↦
        if is_active_university c
        then ensure_university_is_active m (or_subject c)
            (next (with_university ctx (or_subject c) c.email))
        else by_api_key m h ctx
  ]
]

-- A route behind two middlewares.
abbrev pub handed_to : Outcome → (Ctx → Outcome) → Outcome
handed_to (http_error code text) f = http_error code text
handed_to (next ctx) f = f ctx

-- The routes /admin and /vuz of the API server.
unfoldable pub admin_route : Middleware → Headers → Outcome
admin_route m h = handed_to (jwt m h background) admin

unfoldable pub university_route : Middleware → Headers → Outcome
university_route m h = handed_to (jwt m h background) university

unfoldable pub diploma_route : Middleware → Headers → Outcome
diploma_route m h = university_or_api_key m h background
