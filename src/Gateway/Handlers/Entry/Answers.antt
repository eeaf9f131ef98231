-- ===== src/Gateway/Handlers/Entry/Answers.antt =====
-- How a login is answered.
use diasoft.Prelude.{
  ℕ, add_time, Eq-nat, String, ◌≡◌, ◌≢◌, inl, inr, Option, none, some, Bool, true, false, not,
  Result, ok, err, ◌==◌, Eq-string, arith, Option-cases, Result-cases, find,
}
use diasoft.Gateway.Model.{Error}
use diasoft.Gateway.Http.{status_of}
use diasoft.Gateway.Accounts.{
  University, PlatformAdmin, Accounts, Surroundings, select_admin, select_university, has_email,
  find_by_email, find_admin_by_email,
}
use diasoft.Gateway.Token.{AccessClaims, Manager, access_claims, issue_access_token}
use diasoft.Gateway.Auth.{
  Service, Session, login, login_admin, login_university, login_as_university,
}
use diasoft.Gateway.Handlers.Entry.{LoginRequest, login_error, login_route}

-- Every token can be signed.
unfoldable pub Signs : Manager → Type 0
Signs t = (c : AccessClaims) → (token : String) × (t.access_jwt.sign t.access_secret c ≡ ok token)

-- A session, or an error that the caller has caused.
abbrev is_settled : Result Error Session → Bool
is_settled (ok session) = true
is_settled (err e) = not (status_of (login_error e) == 500)

module _ (s : Service) (env : Surroundings) (signs : Signs s.tokens) where
  pub issued :
      (subject vuz_id email role status : String)
      → (x : String × ℕ) × (issue_access_token s.tokens env.now subject vuz_id email role status
          ≡ ok x)
  unfolding issue_access_token Signs
  issued subject vuz_id email role status =
      let expires_at = add_time env.now s.tokens.access_ttl in
      let (token, signed) =
        signs (access_claims env.now expires_at subject vuz_id email role status) in
      ((token, expires_at), ground arith)

  login_admin_settled :
      (a : PlatformAdmin) (password : String) → is_settled (login_admin s env a password) ≡ true
  unfolding login_admin
  login_admin_settled a password =
      let (x, done) = issued a.id "" a.email "admin" "active" in ground arith

  login_university_settled :
      (u : University) (password : String) → is_settled (login_university s env u password) ≡ true
  unfolding login_university
  login_university_settled u password =
      let (x, done) = issued u.id u.id u.email "university" u.status in ground arith

  module _ (db : Accounts) (admins_up : env.down select_admin ≡ false)
      (universities_up : env.down select_university ≡ false) where
    login_as_university_settled :
        (email password : String) → is_settled (login_as_university s env email password db) ≡ true
    unfolding login_as_university find_by_email
    login_as_university_settled email password =
        elim (Option-cases (find (has_email email) db.universities)) [
          | inl absent ↦ ground arith
          | inr (u, found) ↦ ground (arith, login_university_settled u password)
        ]

    login_settled : (email password : String) → is_settled (login s env email password db) ≡ true
    unfolding login find_admin_by_email
    login_settled email password = elim (Option-cases (find (λ a. a.email == email) db.admins)) [
      | inl absent ↦ ground (arith, login_as_university_settled email password)
      | inr (a, found) ↦ ground (arith, login_admin_settled a password)
    ]

-- While the database answers and every token can be signed, no request to log in, whatever its body
-- holds, is answered as an error of the server.
pub login_route_status :
    (s : Service) (env : Surroundings) (refused : LoginRequest → Option String)
    (body : Option LoginRequest) (db : Accounts)
    → Signs s.tokens
    → env.down select_admin ≡ false
    → env.down select_university ≡ false
    → status_of (login_route s env refused body db) ≢ 500
unfolding login_route
login_route_status s env refused none db signs admins universities = λ e. absurd (ground arith)
login_route_status s env refused (some q) db signs admins universities = λ e.
    let settled = login_settled s env signs db admins universities q.email q.password in
    elim (Option-cases (refused q)) [
      | inr (text, invalid) ↦ absurd (ground arith)
      | inl valid ↦ elim (Result-cases (login s env q.email q.password db)) [
        | inl (session, done) ↦ absurd (ground arith)
        | inr (e', broken) ↦ absurd (ground arith)
      ]
    ]
