-- ===== src/Gateway/Examples/Entry.antt =====
-- The theorems on login and on the guards of the routes at one university.
use diasoft.Prelude.{
  ℕ, ◌≡◌, refl, ap, inl, inr, String, none, some, [], ◌∷◌, Bool, true, false, ◌&&◌, Result, ok, err,
  pos, ltb, equal_fold, trim_space, ◌==◌, Eq-string, Eq-nat, if◌then◌else◌, arith, eq_iff,
  Bool-cases,
}
use diasoft.Gateway.Model.{Error, no_rows}
use diasoft.Gateway.Token.{AccessClaims, ShareClaims, Jwt, Manager, second, issue_access_token}
use diasoft.Gateway.Students.Links.{JwtLaws}
use diasoft.Gateway.Accounts.{
  University, ApiKey, Accounts, Surroundings, find_by_email, find_by_id, find_admin_by_email,
}
use diasoft.Gateway.ApiKeys.{find_active_university_by_hash, active_owner}
use diasoft.Gateway.Access.{
  Headers, Ctx, background, with_university, with_api_key_id, next, Middleware,
  extract_bearer_token, extract_api_key, by_api_key, university_or_api_key, university_route,
  diploma_route,
}
use diasoft.Gateway.Access.Guards.{IsActive, diploma_route-IsActive}
use diasoft.Gateway.Auth.{Service, Session, login, login_as_university, login_university}
use diasoft.Gateway.Auth.Login.{Proves, login-Proves, Opens, university_route-login}

abbrev claims : AccessClaims
claims = record {
  vuz_id = "u1";
  email = "a@b";
  role = "university";
  status = "active";
  subject = "u1";
  issued_at = 0;
  expires_at = 1;
}

abbrev is_claims : AccessClaims → Bool
is_claims c =
    c.vuz_id == "u1"
    && c.email == "a@b"
    && c.role == "university"
    && c.status == "active"
    && c.subject == "u1"
    && c.issued_at == 0
    && c.expires_at == 1

abbrev pub sign : String → AccessClaims → Result Error String
sign secret c = if is_claims c then ok "token" else err no_rows

abbrev parse : String → ℕ → String → Result Error AccessClaims
parse secret now token = if token == "token" && ltb now second then ok claims else err no_rows

signed_claims :
    (secret : String) (c : AccessClaims) (token : String)
    → sign secret c ≡ ok token
    → (c ≡ claims) × (token ≡ "token")
signed_claims secret c token h = elim (Bool-cases (is_claims c)) [
  | inr other ↦ absurd (ground arith)
  | inl same ↦
      let id : c.vuz_id ≡ "u1" = ground (arith, eq_iff c.vuz_id "u1") in
      let address : c.email ≡ "a@b" = ground (arith, eq_iff c.email "a@b") in
      let role : c.role ≡ "university" = ground (arith, eq_iff c.role "university") in
      let status : c.status ≡ "active" = ground (arith, eq_iff c.status "active") in
      let subject : c.subject ≡ "u1" = ground (arith, eq_iff c.subject "u1") in
      let issued : c.issued_at ≡ 0 = ground arith in
      let ends : c.expires_at ≡ 1 = ground arith in
      (
        λ i. record {
          vuz_id = id i;
          email = address i;
          role = role i;
          status = status i;
          subject = subject i;
          issued_at = issued i;
          expires_at = ends i;
        },
        ground arith,
      )
]

access_laws : JwtLaws (record { sign = sign; parse = parse }) (λ (c : AccessClaims). c.expires_at)
access_laws = record {
  accepts = λ secret c token now h early.
      let (same, text) = signed_claims secret c token h in
      let ends : c.expires_at ≡ 1 = ap (λ (c : AccessClaims). c.expires_at) same in
      ground (arith, eq_iff token "token");
  refuses = λ secret c token now h late.
      let (same, text) = signed_claims secret c token h in
      let ends : c.expires_at ≡ 1 = ap (λ (c : AccessClaims). c.expires_at) same in
      ground (arith, eq_iff token "token");
}

abbrev share_jwt : Jwt ShareClaims
share_jwt = record { sign = λ secret c. err no_rows; parse = λ secret now token. err no_rows }

abbrev pub tokens : Manager
tokens = record {
  access_secret = "a";
  share_secret = "s";
  access_ttl = pos second;
  share_ttl = pos second;
  access_jwt = record { sign = sign; parse = parse };
  share_jwt = share_jwt;
}

abbrev pub owner : University
owner = record {
  id = "u1";
  name = "University";
  vuz_code = "V1";
  inn = "1";
  ogrn = "1";
  email = "a@b";
  password_hash = "secret";
  public_key = none;
  status = "active";
  created_at = 1;
}

abbrev pub key : ApiKey
key = record {
  id = "k1";
  vuz_id = "u1";
  name = none;
  key_hash = "key";
  is_active = true;
  created_at = 1;
}

abbrev pub accounts : Accounts
accounts = record { universities = owner ∷ []; admins = []; api_keys = key ∷ []; signing_keys = [] }

abbrev pub surroundings : Surroundings
surroundings = record { now = 100; new_id = "x"; down = λ _. false }

abbrev pub guard_of : Manager → Middleware
guard_of t = record {
  tokens = t;
  env = surroundings;
  accounts = accounts;
  hash = λ text. text;
  checked = true;
}

abbrev pub service : Service
service = record { hasher = record { hash = λ p. ok p; matches = λ p h. p == h }; tokens = tokens }

abbrev session : Session
session = record {
  access_token = "token";
  expires_at = 1_000_000_100;
  role = "university";
  status = "active";
  vuz_id = "u1";
  email = "a@b";
}

abbrev pub with_token : Headers
with_token = record { authorization = "Bearer token"; x_api_key = "" }

abbrev with_key : Headers
with_key = record { authorization = ""; x_api_key = "key" }

logged_in : login service surroundings "a@b" "secret" accounts ≡ ok session
unfolding login login_as_university login_university find_by_email find_admin_by_email
    issue_access_token
logged_in = refl

login-Proves_example : Proves service surroundings "a@b" "secret" accounts session
login-Proves_example = login-Proves service surroundings "a@b" "secret" accounts session logged_in

bears_token : extract_bearer_token with_token ≡ some "token"
unfolding extract_bearer_token equal_fold
bears_token = refl

session-Opens : Opens service session (guard_of tokens) with_token
unfolding find_by_id
session-Opens = record {
  same_tokens = refl;
  bears = bears_token;
  in_time = omega arith;
  owner = owner;
  found = refl;
  active = refl;
}

university_route-login_example :
    university_route (guard_of tokens) with_token ≡ next (with_university background "u1" "a@b")
university_route-login_example =
    university_route-login service surroundings "a@b" "secret" accounts session (guard_of tokens)
      with_token access_laws session-Opens logged_in refl

abbrev by_key : Ctx
by_key = with_api_key_id (with_university background "u1" "a@b") "k1"

passes_by_key : diploma_route (guard_of tokens) with_key ≡ next by_key
unfolding diploma_route university_or_api_key extract_bearer_token by_api_key extract_api_key
    find_active_university_by_hash active_owner trim_space equal_fold
passes_by_key = refl

diploma_route-IsActive_example :
    (id : String) × (by_key.role ≡ some "university")
    × (by_key.university_id ≡ some id)
    × IsActive accounts id
diploma_route-IsActive_example =
    diploma_route-IsActive (guard_of tokens) with_key refl by_key passes_by_key
