-- ===== src/Gateway/Startup/Demo.antt =====
-- The university of the demonstration can log in.
use diasoft.Prelude.{
  ℕ, String, ◌≡◌, refl, ap, ◌∙◌, inl, inr, some, true, false, Result, ok, err, blank, ◌==◌, Eq-nat,
  Eq-string, arith, eq_iff, Bool-cases, Result-cases, find-holds, find,
}
use diasoft.Gateway.Model.{Error, no_rows}
use diasoft.Gateway.Accounts.{
  University, Accounts, Surroundings, select_university, find_by_email, find_admin_by_email,
  has_email,
}
use diasoft.Gateway.Accounts.Demo.{IsKeyed, upsert_demo, upsert_demo-found}
use diasoft.Gateway.Token.{issue_access_token}
use diasoft.Gateway.Auth.{Hasher, Service, Session, login, login_as_university, login_university}
use diasoft.Gateway.SigningKeys
use diasoft.Gateway.Handlers.Entry.Answers.{Signs, issued}
use diasoft.Gateway.Startup.{
  filled, DemoUniversity, demo_registration, configure_key, ensure_demo_university,
}

-- A password matches the hash that was made of it.
unfoldable pub HashLaw : Hasher → Type 0
HashLaw h = (password hash : String) → h.hash password ≡ ok hash → h.matches password hash ≡ true

-- The calls of a start that succeeds, for settings that name a university and no key.
ensured :
    (hasher : Hasher) (keys : SigningKeys.Service) (env : Surroundings)
    (read_file : String → Result Error String) (d : DemoUniversity) (db db' : Accounts)
    → blank d.email ≡ false
    → blank d.private_key_path ≡ true
    → ensure_demo_university hasher keys env read_file d db ≡ (ok tt, db')
    → (password_hash : String) × (u : University) × (hasher.hash d.password ≡ ok password_hash)
      × (upsert_demo env (demo_registration d) password_hash "active" db ≡ (ok u, db'))
unfolding ensure_demo_university configure_key
ensured hasher keys env read_file d db db' named no_key done = elim (Bool-cases (filled d == 0)) [
  | inl nothing ↦ absurd (ground arith)
  | inr something ↦ elim (Bool-cases (filled d == 6)) [
    | inr partial ↦ absurd (ground arith)
    | inl complete ↦ elim (Result-cases (hasher.hash d.password)) [
      | inr (e, broken) ↦ absurd (ground arith)
      | inl (hash, hashed) ↦
          elim (Result-cases (upsert_demo env (demo_registration d) hash "active" db).0) [
            | inr (e, refused) ↦ absurd (ground arith)
            | inl (u, stored) ↦ (hash, u, hashed, ground arith)
          ]
    ]
  ]
]

email_found :
    (env : Surroundings) (email : String) (db : Accounts) (u : University)
    → find_by_email env email db ≡ ok u
    → u.email ≡ email
unfolding find_by_email
email_found env email db u found =
    let first : find (has_email email) db.universities ≡ some u = ground arith in
    (eq_iff u.email email).0 (find-holds (has_email email) db.universities u first)

-- The session of a university that is active, with the right password and a token.
logged_in :
    (s : Service) (env : Surroundings) (u : University) (password : String) (x : String × ℕ)
    → u.status ≡ "active"
    → s.hasher.matches password u.password_hash ≡ true
    → issue_access_token s.tokens env.now u.id u.id u.email "university" u.status ≡ ok x
    → login_university s env u password
      ≡ ok (record {
        access_token = x.0;
        expires_at = x.1;
        role = "university";
        status = u.status;
        vuz_id = u.id;
        email = u.email;
      })
unfolding login_university
logged_in s env u password x active right token =
    let not_pending : (u.status == "pending") ≡ false = ap (λ t. t == "pending") active in
    let not_blocked : (u.status == "blocked") ≡ false = ap (λ t. t == "blocked") active in
    let is_active : (u.status == "active") ≡ true = ap (λ t. t == "active") active in ground arith

-- If passwords match the hashes that are made of them and the identifiers of the universities are a
-- key, then after a start that succeeded for settings that name a university and no key, that university
-- can log in with its address and password: as long as the database answers, every token can be signed
-- and no administrator has the address, it gets a session in its name, as active.
pub login-ensure_demo_university :
    (s : Service) (keys : SigningKeys.Service) (env env' : Surroundings)
    (read_file : String → Result Error String) (d : DemoUniversity) (db db' : Accounts)
    → HashLaw s.hasher
    → IsKeyed db.universities
    → blank d.email ≡ false
    → blank d.private_key_path ≡ true
    → ensure_demo_university s.hasher keys env read_file d db ≡ (ok tt, db')
    → env'.down select_university ≡ false
    → find_admin_by_email env' d.email db' ≡ err no_rows
    → Signs s.tokens
    → (session : Session) × (login s env' d.email d.password db' ≡ ok session)
      × (session.role ≡ "university")
      × (session.status ≡ "active")
      × (session.email ≡ d.email)
unfolding login login_as_university HashLaw
login-ensure_demo_university s keys env env' read_file d db db' law keyed named no_key done up
      no_admin signs =
    let (hash, u, hashed, stored) =
      ensured s.hasher keys env read_file d db db' named no_key done in
    let (found, active, as_hash) =
      upsert_demo-found env env' (demo_registration d) hash "active" u db db' keyed stored up in
    let right : s.hasher.matches d.password u.password_hash ≡ true =
      ap (s.hasher.matches d.password) as_hash ∙ law d.password hash hashed in
    let (x, token) = issued s env' signs u.id u.id u.email "university" u.status in
    let session : Session = record {
      access_token = x.0;
      expires_at = x.1;
      role = "university";
      status = u.status;
      vuz_id = u.id;
      email = u.email;
    } in
    let opens : login_university s env' u d.password ≡ ok session =
      logged_in s env' u d.password x active right token in
    (session, ground arith, refl, active, email_found env' d.email db' u found)
