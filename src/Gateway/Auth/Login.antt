-- ===== src/Gateway/Auth/Login.antt =====
-- What a login proves, and what its token opens.
use diasoft.Prelude.{
  ◌*◌, ◌<◌, String, ◌≡◌, inl, inr, some, true, ok, ◌==◌, Eq-string, if◌then◌else◌, arith, eq_iff,
  add_time, Bool-cases, Result-cases,
}
use diasoft.Gateway.Accounts.{
  University, PlatformAdmin, Accounts, Surroundings, find_by_id, find_by_email, find_admin_by_email,
}
use diasoft.Gateway.Token.{
  access_claims, second, numeric_date, issue_access_token, parse_access_token,
}
use diasoft.Gateway.Students.Links.{JwtLaws}
use diasoft.Gateway.Access.{
  Outcome, Headers, background, with_university, next, Middleware, extract_bearer_token, jwt,
  university, by_role, ensure_university_is_active, university_route,
}
use diasoft.Gateway.Auth.{
  Service, Session, login_admin, login_university, login_as_university, login,
}

-- The session of an administrator, or of a university that is active.
pub data Proves (s : Service) (env : Surroundings) (email password : String) (db : Accounts)
    (session : Session) : Type 0 where
  administrator :
      (a : PlatformAdmin)
      → find_admin_by_email env email db ≡ ok a
      → s.hasher.matches password a.password_hash ≡ true
      → session.role ≡ "admin"
      → session.email ≡ a.email
      → Proves s env email password db session
  institution :
      (u : University)
      → find_by_email env email db ≡ ok u
      → s.hasher.matches password u.password_hash ≡ true
      → u.status ≡ "active"
      → session.role ≡ "university"
      → session.vuz_id ≡ u.id
      → session.email ≡ u.email
      → issue_access_token s.tokens env.now u.id u.id u.email "university" "active"
        ≡ ok (session.access_token, session.expires_at)
      → Proves s env email password db session

module _ (s : Service) (env : Surroundings) (email password : String) (db : Accounts)
    (session : Session) where
  login_as_university-Proves :
      login_as_university s env email password db ≡ ok session
      → Proves s env email password db session
  unfolding login_as_university login_university
  login_as_university-Proves h = elim (Result-cases (find_by_email env email db)) [
    | inr (e, broken) ↦ absurd (ground arith)
    | inl (u, found) ↦ elim (Bool-cases (u.status == "active")) [
      | inr inactive ↦ absurd (ground arith)
      | inl active ↦
          elim (Result-cases
            (issue_access_token s.tokens env.now u.id u.id u.email "university" u.status)) [
              | inr (e, broken) ↦ absurd (ground arith)
              | inl ((token, expires_at), issued) ↦
                  institution u found (ground arith) ((eq_iff _ _).0 active) (ground arith)
                    (ground arith) (ground arith) (ground (arith, eq_iff u.status "active"))
            ]
    ]
  ]

  login_admin-Proves :
      (a : PlatformAdmin)
      → find_admin_by_email env email db ≡ ok a
      → login_admin s env a password ≡ ok session
      → Proves s env email password db session
  unfolding login_admin
  login_admin-Proves a found h =
      elim (Result-cases (issue_access_token s.tokens env.now a.id "" a.email "admin" "active")) [
        | inr (e, broken) ↦ absurd (ground arith)
        | inl ((token, expires_at), issued) ↦
            administrator a found (ground arith) (ground arith) (ground arith)
      ]

  -- A login that succeeds proves the password of an administrator with the address, or that of a
  -- university with the address that is active; the session is in that name.
  pub login-Proves :
      login s env email password db ≡ ok session → Proves s env email password db session
  unfolding login
  login-Proves h = elim (Result-cases (find_admin_by_email env email db)) [
    | inl (a, found) ↦ login_admin-Proves a found (ground arith)
    | inr (e, none_there) ↦ login_as_university-Proves (ground arith)
  ]

-- What the middleware needs to know of a session: its token, and that the university is active.
pub record Opens (s : Service) (session : Session) (m : Middleware) (h : Headers) : Type 0 where
  pub same_tokens : m.tokens ≡ s.tokens
  pub bears : extract_bearer_token h ≡ some session.access_token
  pub in_time : m.env.now < numeric_date session.expires_at * second
  pub owner : University
  pub found : find_by_id m.env session.vuz_id m.accounts ≡ ok owner
  pub active : owner.status ≡ "active"

module _ (s : Service) (env : Surroundings) (email password : String) (db : Accounts)
    (session : Session) (m : Middleware) (h : Headers)
    (laws : JwtLaws s.tokens.access_jwt (λ c. c.expires_at)) (o : Opens s session m h) where
  parse_issued :
      (u : University)
      → session.vuz_id ≡ u.id
      → issue_access_token s.tokens env.now u.id u.id u.email "university" "active"
        ≡ ok (session.access_token, session.expires_at)
      → parse_access_token m.tokens m.env.now session.access_token
        ≡ ok (access_claims env.now session.expires_at u.id u.id u.email "university" "active")
  unfolding issue_access_token parse_access_token
  parse_issued u owner issued =
      let claims =
        access_claims env.now session.expires_at u.id u.id u.email "university" "active" in
      let sign = s.tokens.access_jwt.sign s.tokens.access_secret in
      let ends : add_time env.now s.tokens.access_ttl ≡ session.expires_at = ground arith in
      let signed : sign claims ≡ ok session.access_token = ground arith in
      rw o.same_tokens
        (laws.accepts s.tokens.access_secret claims session.access_token m.env.now signed o.in_time)

  same_owner :
      (u : University)
      → session.vuz_id ≡ u.id
      → (if u.id == "" then u.id else u.id) ≡ session.vuz_id
  same_owner u owner = ground arith

  checked_owner : (rest : Outcome) → ensure_university_is_active m session.vuz_id rest ≡ rest
  unfolding ensure_university_is_active
  checked_owner rest = ground (arith, o.found, o.active, eq_iff o.owner.status "active")

  opened :
      (u : University)
      → session.vuz_id ≡ u.id
      → session.email ≡ u.email
      → by_role m background
          (access_claims env.now session.expires_at u.id u.id u.email "university" "active")
        ≡ next (with_university background session.vuz_id session.email)
  unfolding by_role
  opened u owner address =
      let ctx = with_university background session.vuz_id session.email in
      rw (same_owner u owner, ← address) (checked_owner (next ctx))

  -- If the tokens keep the laws of golang-jwt, a request that bears the token of a university's
  -- login passes to the routes of universities in its name, before the token expires and while
  -- the table holds the university as active.
  pub university_route-login :
      login s env email password db ≡ ok session
      → session.role ≡ "university"
      → university_route m h ≡ next (with_university background session.vuz_id session.email)
  unfolding university_route jwt university
  university_route-login success role =
      elim (login-Proves s env email password db session success) [
        | administrator a found matches as_admin address ↦
            absurd (ground (arith, eq_iff "admin" "university"))
        | institution u found matches active as_university owner address issued ↦
            ground (arith, parse_issued u owner issued, o.bears, opened u owner address)
      ]
