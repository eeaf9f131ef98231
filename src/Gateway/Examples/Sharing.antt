-- ===== src/Gateway/Examples/Sharing.antt =====
-- The theorems on share links at one link.
use diasoft.Prelude.{
  ℕ, ◌≡◌, refl, ap, inl, inr, String, none, some, [], ◌∷◌, Bool, ◌&&◌, Result, ok, err, pos, ltb,
  ◌==◌, Eq-string, Eq-nat, if◌then◌else◌, arith, eq_iff, Bool-cases,
}
use diasoft.Gateway.Model.{Error, no_rows, unique_violation, invalid_share_token, active, row_ok}
use diasoft.Gateway.Store.{ResultRow, HashRow, LinkRow, Db, Env}
use diasoft.Gateway.Results.{parse_qr_payload}
use diasoft.Gateway.Token.{AccessClaims, ShareClaims, Jwt, second, issue_share_token}
use diasoft.Gateway.Students.{
  Service, ShareLink, SharedDiploma, find_student_by_hash, join_student, create_share_link,
  resolve_share_link,
}
use diasoft.Gateway.Students.Links.{JwtLaws, resolve_share_link_expired, resolve-create}
use diasoft.Gateway.Students.Links.Again.{create_share_link_twice}
use diasoft.Gateway.Examples.{empty_db, env}

abbrev claims : ShareClaims
claims = record {
  diploma_hash = "h1";
  kind = "share_link";
  subject = "h1";
  issued_at = 0;
  expires_at = 1;
}

abbrev is_claims : ShareClaims → Bool
is_claims c =
    c.diploma_hash == "h1"
    && c.kind == "share_link"
    && c.subject == "h1"
    && c.issued_at == 0
    && c.expires_at == 1

abbrev sign : String → ShareClaims → Result Error String
sign secret c = if is_claims c then ok "token" else err no_rows

abbrev parse : String → ℕ → String → Result Error ShareClaims
parse secret now token = if token == "token" && ltb now second then ok claims else err no_rows

signed_claims :
    (secret : String) (c : ShareClaims) (token : String)
    → sign secret c ≡ ok token
    → (c ≡ claims) × (token ≡ "token")
signed_claims secret c token h = elim (Bool-cases (is_claims c)) [
  | inr other ↦ absurd (ground arith)
  | inl same ↦
      let hash : c.diploma_hash ≡ "h1" = ground (arith, eq_iff c.diploma_hash "h1") in
      let kind : c.kind ≡ "share_link" = ground (arith, eq_iff c.kind "share_link") in
      let subject : c.subject ≡ "h1" = ground (arith, eq_iff c.subject "h1") in
      let issued : c.issued_at ≡ 0 = ground arith in
      let ends : c.expires_at ≡ 1 = ground arith in
      (
        λ i. record {
          diploma_hash = hash i;
          kind = kind i;
          subject = subject i;
          issued_at = issued i;
          expires_at = ends i;
        },
        ground arith,
      )
]

share_jwt : JwtLaws (record { sign = sign; parse = parse }) (λ (c : ShareClaims). c.expires_at)
share_jwt = record {
  accepts = λ secret c token now h early.
      let (same, text) = signed_claims secret c token h in
      let ends : c.expires_at ≡ 1 = ap (λ (c : ShareClaims). c.expires_at) same in
      ground (arith, eq_iff token "token");
  refuses = λ secret c token now h late.
      let (same, text) = signed_claims secret c token h in
      let ends : c.expires_at ≡ 1 = ap (λ (c : ShareClaims). c.expires_at) same in
      ground (arith, eq_iff token "token");
}

abbrev access_jwt : Jwt AccessClaims
access_jwt = record { sign = λ secret c. err no_rows; parse = λ secret now token. err no_rows }

abbrev pub service : Service
service = record {
  tokens = record {
    access_secret = "a";
    share_secret = "s";
    access_ttl = pos second;
    share_ttl = pos second;
    access_jwt = access_jwt;
    share_jwt = record { sign = sign; parse = parse };
  };
  default_ttl = pos second;
}

abbrev pub result_row : ResultRow
result_row = record {
  batch_id = "b1";
  record_index = pos 0;
  diploma_hash = some "h1";
  qr_payload = some "qr";
  status = row_ok;
  error = none;
  created_at = 1;
}

abbrev pub diploma : HashRow
diploma = record {
  hash = "h1";
  vuz_id = "u1";
  diploma_number = "D-1";
  status = active;
  created_at = 1;
  revoked_at = none;
}

abbrev pub diploma_db : Db
diploma_db = record empty_db { results = result_row ∷ []; hashes = diploma ∷ [] }

abbrev link : ShareLink
link = record { token = "token"; expires_at = 1_000_000_100 }

abbrev link_row : LinkRow
link_row = record {
  id = "b1";
  diploma_hash = "h1";
  token = "token";
  expires_at = 1_000_000_100;
  used_count = 0;
  created_at = 100;
}

abbrev link_db : Db
link_db = record diploma_db { links = link_row ∷ [] }

created : create_share_link service env "h1" (pos second) diploma_db ≡ (ok link, link_db)
unfolding create_share_link find_student_by_hash join_student issue_share_token parse_qr_payload
created = refl

abbrev late_env : Env
late_env = record env { now = 1_000_000_000 }

resolve_share_link_expired_example :
    resolve_share_link service late_env "token" link_db ≡ (err invalid_share_token, link_db)
resolve_share_link_expired_example =
    resolve_share_link_expired service env late_env "h1" (pos second) link diploma_db link_db
      created share_jwt link_db (omega arith)

resolve-create_example :
    (shared : SharedDiploma) × (resolve_share_link service env "token" link_db
      ≡ (ok shared, record diploma_db { links = record link_row { used_count = 1 } ∷ [] }))
    × (link_db ≡ record diploma_db { links = link_row ∷ [] })
    × (shared.student.diploma_hash ≡ "h1")
    × (shared.expires_at ≡ 1_000_000_100)
resolve-create_example =
    resolve-create service env env "h1" (pos second) link diploma_db link_db created share_jwt
      (λ _. refl) refl (omega arith)

create_share_link_twice_example :
    create_share_link service env "h1" (pos second) link_db ≡ (err unique_violation, link_db)
create_share_link_twice_example =
    create_share_link_twice service env env "h1" (pos second) link diploma_db link_db created 1 refl
      (omega arith) (λ _. refl) refl refl
