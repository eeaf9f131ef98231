-- ===== src/Gateway/Examples/Demo.antt =====
-- The theorem on the university of the demonstration, for empty tables.
use diasoft.Prelude.{◌≡◌, refl, [], ok, err, arith, eq_iff, trim_space, Eq-string}
use diasoft.Gateway.Model.{no_rows}
use diasoft.Gateway.Accounts.{Accounts, find_admin_by_email}
use diasoft.Gateway.Accounts.Demo.{IsKeyed, upsert_demo, demo_body, insert_demo}
use diasoft.Gateway.Auth.{Session, login}
use diasoft.Gateway.Startup.{DemoUniversity, ensure_demo_university, configure_key}
use diasoft.Gateway.Startup.Demo.{HashLaw, login-ensure_demo_university}
use diasoft.Gateway.Examples.Entry.{surroundings}
use diasoft.Gateway.Examples.Keys.{signing_service}
use diasoft.Gateway.Examples.Answers.{signing, signing-Signs}

abbrev demo : DemoUniversity
demo = record {
  name = "Demo";
  vuz_code = "D1";
  inn = "1";
  ogrn = "1";
  email = "demo@b";
  password = "secret";
  private_key_path = "";
}

abbrev bare : Accounts
bare = record { universities = []; admins = []; api_keys = []; signing_keys = [] }

abbrev started : Accounts
started =
    (ensure_demo_university signing.hasher signing_service surroundings (λ path. err no_rows) demo
      bare).1

starts :
    ensure_demo_university signing.hasher signing_service surroundings
      (λ path. err no_rows)
      demo
      bare
    ≡ (ok tt, started)
unfolding ensure_demo_university configure_key upsert_demo demo_body insert_demo trim_space
starts = refl

same_text : HashLaw signing.hasher
unfolding HashLaw
same_text password hash made = ground (arith, eq_iff password hash)

bare-IsKeyed : IsKeyed bare.universities
unfolding IsKeyed
bare-IsKeyed i = omega arith

login-ensure_demo_university_example :
    (session : Session) × (login signing surroundings "demo@b" "secret" started ≡ ok session)
    × (session.role ≡ "university")
    × (session.status ≡ "active")
    × (session.email ≡ "demo@b")
unfolding find_admin_by_email ensure_demo_university configure_key upsert_demo demo_body insert_demo
    trim_space
login-ensure_demo_university_example =
    login-ensure_demo_university signing signing_service surroundings surroundings
      (λ path. err no_rows) demo bare started same_text bare-IsKeyed refl refl starts refl refl
      signing-Signs
