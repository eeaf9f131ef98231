-- ===== src/Pubver/Config/Usable.antt =====
-- What holds of the settings that are loaded.
use diasoft.Prelude.{
  String, ◌≡◌, ap, sym, ◌∙◌, inl, inr, true, false, ok, bind-ok, is_positive, length, trim_space,
  is_empty, Eq-nat, arith, Bool-cases, Option-cases, Result-cases,
}
use diasoft.Pubver.Jwt.{Bytes}
use diasoft.Pubver.Config.{
  db_max_conns, rate_limit_enabled, rate_limit_burst, rate_limit_rps, request_timeout, visitor_ttl,
  cleanup_interval, to_int32, env_or_default, best_effort_secret_bytes, Tools, RateLimitConfig,
  Config, Environ, exactly_32, decode_jwt_enc_key_hex, decode_jwt_enc_key_base64,
  derive_jwt_enc_key, load_jwt_enc_key, load_database_url, check_rate_limit, load,
}

-- SHA-256 gives 32 bytes, and the text of a URL is not empty.
pub record PackageLaws {Float : Type 0} (t : Tools Float) : Type 0 where
  pub digest : (b : Bytes) → length (t.sha256 b) ≡ 32
  pub url :
      (user password host port database mode : String)
      → is_empty (t.url_of user password host port database mode) ≡ false

-- The limits are positive.
pub record Limits {Float : Type 0} (t : Tools Float) (r : RateLimitConfig Float) : Type 0 where
  pub rate : t.at_most_zero r.requests_per_sec ≡ false
  pub burst : is_positive r.burst ≡ true
  pub ttl : is_positive r.visitor_ttl ≡ true
  pub cleanup : is_positive r.cleanup_interval ≡ true

pub record IsUsable {Float : Type 0} (t : Tools Float) (c : Config Float) : Type 0 where
  pub key : length c.jwt_enc_key ≡ 32
  pub database : is_empty c.database_url ≡ false
  pub limits : c.rate_limit.enabled ≡ true → Limits t c.rate_limit

module _ {Float : Type 0} (t : Tools Float) where
  hex_long :
      (value : String) (key : Bytes) → decode_jwt_enc_key_hex t value ≡ ok key → length key ≡ 32
  unfolding decode_jwt_enc_key_hex exactly_32
  hex_long value key h = elim (Option-cases (t.decode_hex value)) [
    | inl bad ↦ absurd (ground arith)
    | inr (b, read) ↦ ground arith
  ]

  base64_long :
      (value : String) (key : Bytes) → decode_jwt_enc_key_base64 t value ≡ ok key → length key ≡ 32
  unfolding decode_jwt_enc_key_base64 exactly_32
  base64_long value key h = elim (Option-cases (t.decode_base64 value)) [
    | inr (b, read) ↦ ground arith
    | inl no_base64 ↦ elim (Option-cases (t.decode_raw_base64 value)) [
      | inr (b, read) ↦ ground arith
      | inl bad ↦ absurd (ground arith)
    ]
  ]

  derived_long :
      PackageLaws t
      → (value : String) (key : Bytes) → derive_jwt_enc_key t value ≡ ok key
      → length key ≡ 32
  unfolding derive_jwt_enc_key decode_jwt_enc_key_hex decode_jwt_enc_key_base64
  derived_long laws value key h =
      let x = trim_space value in
      elim (Result-cases (decode_jwt_enc_key_hex t x)) [
        | inl (b, hex) ↦ let e : b ≡ key = ground arith in ap length (sym e) ∙ hex_long x b hex
        | inr (e, no_hex) ↦ elim (Result-cases (decode_jwt_enc_key_base64 t x)) [
          | inl (b, base64) ↦
              let e : b ≡ key = ground arith in ap length (sym e) ∙ base64_long x b base64
          | inr (e', no_base64) ↦ ground (arith, laws.digest (best_effort_secret_bytes t x))
        ]
      ]

  key_long :
      PackageLaws t
      → (env : Environ) (key : Bytes) → load_jwt_enc_key t env ≡ ok key
      → length key ≡ 32
  unfolding load_jwt_enc_key
  key_long laws env key h =
      let secret = trim_space (env "JWT_ENC_SECRET") in
      let base64 = trim_space (env "JWT_ENC_KEY_BASE64") in
      let plain = trim_space (env "JWT_ENC_KEY") in
      let hex = trim_space (env "JWT_ENC_KEY_HEX") in
      elim (Bool-cases (is_empty secret)) [
        | inr given ↦ derived_long laws secret key (ground arith)
        | inl missing1 ↦ elim (Bool-cases (is_empty base64)) [
          | inr given ↦ base64_long base64 key (ground arith)
          | inl missing2 ↦ elim (Bool-cases (is_empty plain)) [
            | inr given ↦ base64_long plain key (ground arith)
            | inl missing3 ↦ elim (Bool-cases (is_empty hex)) [
              | inl nothing ↦ absurd (ground arith)
              | inr given ↦ elim (Result-cases (decode_jwt_enc_key_hex t hex)) [
                | inl (b, read) ↦
                    let e : b ≡ key = ground arith in ap length (sym e) ∙ hex_long hex b read
                | inr (e, bad) ↦ base64_long hex key (ground arith)
              ]
            ]
          ]
        ]
      ]

  url_given :
      PackageLaws t
      → (env : Environ) (url : String) → load_database_url t env ≡ ok url
      → is_empty url ≡ false
  unfolding load_database_url
  url_given laws env url h =
      let given = trim_space (env "DATABASE_URL") in
      let host = trim_space (env "POSTGRES_HOST") in
      let database = trim_space (env "POSTGRES_DB") in
      let user = trim_space (env "POSTGRES_USER") in
      let port = trim_space (env_or_default env "POSTGRES_PORT" "5432") in
      let mode = trim_space (env_or_default env "POSTGRES_SSLMODE" "disable") in
      ground (arith, laws.url user (env "POSTGRES_PASSWORD") host port database mode)

  check_rate_limit-Limits :
      (r : RateLimitConfig Float) → check_rate_limit t r ≡ ok tt → r.enabled ≡ true → Limits t r
  unfolding check_rate_limit
  check_rate_limit-Limits r h on = record {
    rate = ground arith;
    burst = ground arith;
    ttl = ground arith;
    cleanup = ground arith;
  }

  -- If SHA-256 gives 32 bytes and no URL is empty, settings that are loaded have a key of 32 bytes and the
  -- URL of a database, and where the rate is limited its four limits are positive; a rate that is not a
  -- number counts as positive.
  pub load-IsUsable :
      PackageLaws t → (env : Environ) (c : Config Float) → load t env ≡ ok c → IsUsable t c
  unfolding load
  load-IsUsable laws env c h =
      let (conns, h0, k0) = bind-ok (db_max_conns t env) _ h in
      let (enabled, h1, k1) = bind-ok (rate_limit_enabled t env) _ k0 in
      let (burst, h2, k2) = bind-ok (rate_limit_burst t env) _ k1 in
      let (rps, h3, k3) = bind-ok (rate_limit_rps t env) _ k2 in
      let (timeout, h4, k4) = bind-ok (request_timeout t env) _ k3 in
      let (ttl, h5, k5) = bind-ok (visitor_ttl t env) _ k4 in
      let (cleanup, h6, k6) = bind-ok (cleanup_interval t env) _ k5 in
      let limits : RateLimitConfig Float = record {
        enabled = enabled;
        requests_per_sec = rps;
        burst = burst;
        visitor_ttl = ttl;
        cleanup_interval = cleanup;
      } in
      let (_, checked, k7) = bind-ok (check_rate_limit t limits) _ k6 in
      let (url, loaded, k8) = bind-ok (load_database_url t env) _ k7 in
      let (key, held, k9) = bind-ok (load_jwt_enc_key t env) _ k8 in
      let e : c ≡ record {
        http_addr = env_or_default env "HTTP_ADDR" ":8080";
        database_url = url;
        request_timeout = timeout;
        log_level = env_or_default env "LOG_LEVEL" "info";
        db_max_conns = to_int32 conns;
        jwt_enc_key = key;
        rate_limit = limits;
      } =
        ground arith in
      rw e (record {
        key = key_long laws env key held;
        database = url_given laws env url loaded;
        limits = check_rate_limit-Limits limits checked;
      })
