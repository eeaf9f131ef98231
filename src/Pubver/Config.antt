-- ===== src/Pubver/Config.antt =====
-- pubver/internal/config/config.go: the settings of the verification service.
pub mod Keys
pub mod Usable
use diasoft.Prelude.{
  ℕ, ◌-◌, ◌%◌, ◌^◌, String, Option, none, some, Bool, true, false, not, ◌&&◌, ◌||◌, Result, ok, err,
  ◌>>=◌, ◌>>◌, guard, ℤ, pos, negsuc, is_positive, sub_ℕ, ltb, length, trim_space, is_empty,
  parse_int64, ◌==◌, Eq-string, Eq-nat, if◌then◌else◌,
}
use diasoft.Pubver.Jwt.{Bytes}

-- The packages of Go: strconv.ParseFloat with the test that a number is at most zero, time.ParseDuration,
-- base64, hex, SHA-256, and the text of a URL of package url from its user, password, host, port, path
-- and sslmode.
pub record Tools (Float : Type 0) : Type 0 where
  pub parse_float : String → Option Float
  pub at_most_zero : Float → Bool
  pub five : Float
  pub parse_duration : String → Option ℤ
  pub decode_hex : String → Option Bytes
  pub decode_base64 : String → Option Bytes
  pub decode_raw_base64 : String → Option Bytes
  pub bytes_of : String → Bytes
  pub sha256 : Bytes → Bytes
  pub url_of : String → String → String → String → String → String → String

pub record RateLimitConfig (Float : Type 0) : Type 0 where
  pub enabled : Bool
  pub requests_per_sec : Float
  pub burst : ℤ
  pub visitor_ttl : ℤ
  pub cleanup_interval : ℤ

pub record Config (Float : Type 0) : Type 0 where
  pub http_addr : String
  pub database_url : String
  pub request_timeout : ℤ
  pub log_level : String
  pub db_max_conns : ℤ
  pub jwt_enc_key : Bytes
  pub rate_limit : RateLimitConfig Float

-- os.Getenv; a variable that is not set reads as the empty text.
abbrev pub Environ : Type 0
Environ = String → String

abbrev needed : {A : Type 0} → Option A → String → Result String A
needed none text = err text
needed (some a) text = ok a

abbrev pub env_or_default : Environ → String → String → String
env_or_default env key fallback = if is_empty (env key) then fallback else env key

-- A setting that is read where it is given. An error is its text, less the error that it wraps.
abbrev env_read : {A : Type 0} → (String → Option A) → String → String → A → Result String A
env_read parse value text fallback =
    if is_empty value then ok fallback else needed (parse value) text

abbrev is_true : String → Bool
is_true s = s == "1" || s == "t" || s == "T" || s == "TRUE" || s == "true" || s == "True"

abbrev is_false : String → Bool
is_false s = s == "0" || s == "f" || s == "F" || s == "FALSE" || s == "false" || s == "False"

-- strconv.ParseBool
abbrev parse_bool : String → Option Bool
parse_bool s = if is_true s then some true else if is_false s then some false else none

abbrev of_word : ℕ → ℤ
of_word m = if ltb m (2 ^ 31) then pos m else sub_ℕ m (2 ^ 32)

-- The conversion of an int to int32, which wraps around.
abbrev pub to_int32 : ℤ → ℤ
to_int32 (pos n) = of_word (n % 2 ^ 32)
to_int32 (negsuc n) = of_word (2 ^ 32 - 1 - n % 2 ^ 32)

module _ {Float : Type 0} (t : Tools Float) where
  unfoldable pub exactly_32 : Bytes → String → Result String Bytes
  exactly_32 key text = if length key == 32 then ok key else err text

  unfoldable pub decode_jwt_enc_key_hex : String → Result String Bytes
  unfolding exactly_32
  decode_jwt_enc_key_hex value = do
    key ← needed (t.decode_hex value) "decode hex key"
    exactly_32 key "hex key must be 32 bytes (64 hex chars)"

  abbrev first_of : Option Bytes → Option Bytes → Option Bytes
  first_of (some b) other = some b
  first_of none other = other

  unfoldable pub decode_jwt_enc_key_base64 : String → Result String Bytes
  unfolding exactly_32
  decode_jwt_enc_key_base64 value = do
    key ←
        needed (first_of (t.decode_base64 value) (t.decode_raw_base64 value)) "decode key as base64"
    exactly_32 key "key must decode to 32 bytes"

  abbrev or_bytes : Option Bytes → Bytes → Bytes
  or_bytes (some b) other = b
  or_bytes none other = other

  unfoldable pub best_effort_secret_bytes : String → Bytes
  best_effort_secret_bytes secret =
      or_bytes
        (first_of (t.decode_hex secret)
          (first_of (t.decode_base64 secret) (t.decode_raw_base64 secret)))
        (t.bytes_of secret)

  unfoldable pub derive_jwt_enc_key : String → Result String Bytes
  unfolding decode_jwt_enc_key_hex decode_jwt_enc_key_base64 best_effort_secret_bytes
  derive_jwt_enc_key secret =
      let trimmed = trim_space secret in
      let derived : Result String Bytes = elim (decode_jwt_enc_key_hex trimmed) [
        | ok key ↦ ok key
        | err _ ↦ elim (decode_jwt_enc_key_base64 trimmed) [
          | ok key ↦ ok key
          | err _ ↦ ok (t.sha256 (best_effort_secret_bytes trimmed))
        ]
      ] in
      if is_empty trimmed then err "JWT_ENC_SECRET must not be empty" else derived

  -- The first variable that is given, of four.
  unfoldable pub load_jwt_enc_key : Environ → Result String Bytes
  unfolding derive_jwt_enc_key
  load_jwt_enc_key env =
      let secret = trim_space (env "JWT_ENC_SECRET") in
      let base64 = trim_space (env "JWT_ENC_KEY_BASE64") in
      let plain = trim_space (env "JWT_ENC_KEY") in
      let hex = trim_space (env "JWT_ENC_KEY_HEX") in
      let of_hex : Result String Bytes = elim (decode_jwt_enc_key_hex hex) [
        | ok key ↦ ok key
        | err _ ↦ decode_jwt_enc_key_base64 hex
      ] in
      if not (is_empty secret)
      then derive_jwt_enc_key secret
      else if not (is_empty base64)
      then decode_jwt_enc_key_base64 base64
      else if not (is_empty plain)
      then decode_jwt_enc_key_base64 plain
      else if not (is_empty hex)
      then of_hex
      else err
          "set JWT_ENC_SECRET, JWT_ENC_KEY_BASE64, JWT_ENC_KEY, or legacy JWT_ENC_KEY_HEX for A256GCM payload decryption"

  unfoldable pub load_database_url : Environ → Result String String
  load_database_url env =
      let given = trim_space (env "DATABASE_URL") in
      let host = trim_space (env "POSTGRES_HOST") in
      let database = trim_space (env "POSTGRES_DB") in
      let user = trim_space (env "POSTGRES_USER") in
      let port = trim_space (env_or_default env "POSTGRES_PORT" "5432") in
      let ssl_mode = trim_space (env_or_default env "POSTGRES_SSLMODE" "disable") in
      if not (is_empty given)
      then ok given
      else if is_empty host || is_empty database || is_empty user
      then err "set DATABASE_URL or configure POSTGRES_HOST, POSTGRES_DB and POSTGRES_USER"
      else ok (t.url_of user (env "POSTGRES_PASSWORD") host port database ssl_mode)

  unfoldable pub check_rate_limit : RateLimitConfig Float → Result String Unit
  check_rate_limit r =
      if not r.enabled
      then ok tt
      else if t.at_most_zero r.requests_per_sec
      then err "RATE_LIMIT_RPS must be greater than zero when rate limiting is enabled"
      else if not (is_positive r.burst)
      then err "RATE_LIMIT_BURST must be greater than zero when rate limiting is enabled"
      else if not (is_positive r.visitor_ttl)
      then err "RATE_LIMIT_VISITOR_TTL must be greater than zero when rate limiting is enabled"
      else if not (is_positive r.cleanup_interval)
      then err "RATE_LIMIT_CLEANUP_INTERVAL must be greater than zero when rate limiting is enabled"
      else ok tt

  -- The settings that Load reads, one by one.
  abbrev pub db_max_conns : Environ → Result String ℤ
  db_max_conns env =
      env_read parse_int64 (env "DB_MAX_CONNS") "DB_MAX_CONNS must be a valid integer" (pos 10)

  abbrev pub rate_limit_enabled : Environ → Result String Bool
  rate_limit_enabled env =
      env_read parse_bool (trim_space (env "RATE_LIMIT_ENABLED"))
        "RATE_LIMIT_ENABLED must be a valid boolean" true

  abbrev pub rate_limit_burst : Environ → Result String ℤ
  rate_limit_burst env =
      env_read parse_int64 (env "RATE_LIMIT_BURST") "RATE_LIMIT_BURST must be a valid integer"
        (pos 20)

  abbrev pub rate_limit_rps : Environ → Result String Float
  rate_limit_rps env =
      env_read t.parse_float (env "RATE_LIMIT_RPS") "RATE_LIMIT_RPS must be a valid number" t.five

  abbrev pub request_timeout : Environ → Result String ℤ
  request_timeout env =
      needed (t.parse_duration (env_or_default env "REQUEST_TIMEOUT" "5s")) "invalid duration"

  abbrev pub visitor_ttl : Environ → Result String ℤ
  visitor_ttl env =
      needed (t.parse_duration (env_or_default env "RATE_LIMIT_VISITOR_TTL" "10m"))
        "RATE_LIMIT_VISITOR_TTL must be a valid duration"

  abbrev pub cleanup_interval : Environ → Result String ℤ
  cleanup_interval env =
      needed (t.parse_duration (env_or_default env "RATE_LIMIT_CLEANUP_INTERVAL" "5m"))
        "RATE_LIMIT_CLEANUP_INTERVAL must be a valid duration"

  unfoldable pub load : Environ → Result String (Config Float)
  unfolding check_rate_limit load_database_url load_jwt_enc_key
  load env = do
    conns ← db_max_conns env
    enabled ← rate_limit_enabled env
    burst ← rate_limit_burst env
    rps ← rate_limit_rps env
    timeout ← request_timeout env
    ttl ← visitor_ttl env
    cleanup ← cleanup_interval env
    let rate_limit : RateLimitConfig Float = record {
      enabled = enabled;
      requests_per_sec = rps;
      burst = burst;
      visitor_ttl = ttl;
      cleanup_interval = cleanup;
    }
    _ ← check_rate_limit rate_limit
    database_url ← load_database_url env
    key ← load_jwt_enc_key env
    ok (record {
      http_addr = env_or_default env "HTTP_ADDR" ":8080";
      database_url = database_url;
      request_timeout = timeout;
      log_level = env_or_default env "LOG_LEVEL" "info";
      db_max_conns = to_int32 conns;
      jwt_enc_key = key;
      rate_limit = rate_limit;
    })
