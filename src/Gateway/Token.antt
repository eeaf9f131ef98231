-- ===== src/Gateway/Token.antt =====
-- gateway-service/internal/infrastructure/token/jwt_manager.go. Times and durations count
-- nanoseconds; the dates in a token count seconds, as jwt.NewNumericDate leaves them.
use diasoft.Prelude.{ℕ, ◌/◌, String, Result, ok, ◌>>=◌, ℤ, add_time, positive_or}
use diasoft.Gateway.Model.{Error}

pub record AccessClaims : Type 0 where
  pub vuz_id : String
  pub email : String
  pub role : String
  pub status : String
  pub subject : String
  pub issued_at : ℕ
  pub expires_at : ℕ

pub record ShareClaims : Type 0 where
  pub diploma_hash : String
  pub kind : String
  pub subject : String
  pub issued_at : ℕ
  pub expires_at : ℕ

abbrev pub second : ℕ
second = 1_000_000_000

abbrev pub numeric_date : ℕ → ℕ
numeric_date t = t / second

-- golang-jwt at claims C: signing by HS256 with a secret, and ParseWithClaims, which checks the
-- method, the signature and, against the given time, the dates.
pub record Jwt (C : Type 0) : Type 0 where
  pub sign : String → C → Result Error String
  pub parse : String → ℕ → String → Result Error C

pub record Manager : Type 0 where
  pub access_secret : String
  pub share_secret : String
  pub access_ttl : ℤ
  pub share_ttl : ℤ
  pub access_jwt : Jwt AccessClaims
  pub share_jwt : Jwt ShareClaims

abbrev pub access_claims : ℕ → ℕ → String → String → String → String → String → AccessClaims
access_claims now expires_at subject vuz_id email role status = record {
  vuz_id = vuz_id;
  email = email;
  role = role;
  status = status;
  subject = subject;
  issued_at = numeric_date now;
  expires_at = numeric_date expires_at;
}

unfoldable pub issue_access_token :
    Manager → ℕ → String → String → String → String → String → Result Error (String × ℕ)
issue_access_token m now subject vuz_id email role status = do
  let expires_at = add_time now m.access_ttl
  signed ←
      m.access_jwt.sign m.access_secret
        (access_claims now expires_at subject vuz_id email role status)
  ok (signed, expires_at)

unfoldable pub parse_access_token : Manager → ℕ → String → Result Error AccessClaims
parse_access_token m now token = m.access_jwt.parse m.access_secret now token

abbrev pub share_claims : ℕ → ℕ → String → ShareClaims
share_claims now expires_at diploma_hash = record {
  diploma_hash = diploma_hash;
  kind = "share_link";
  subject = diploma_hash;
  issued_at = numeric_date now;
  expires_at = numeric_date expires_at;
}

unfoldable pub issue_share_token : Manager → ℕ → String → ℤ → Result Error (String × ℕ)
issue_share_token m now diploma_hash ttl = do
  let expires_at = add_time now (positive_or ttl m.share_ttl)
  signed ← m.share_jwt.sign m.share_secret (share_claims now expires_at diploma_hash)
  ok (signed, expires_at)

unfoldable pub parse_share_token : Manager → ℕ → String → Result Error ShareClaims
parse_share_token m now token = m.share_jwt.parse m.share_secret now token
