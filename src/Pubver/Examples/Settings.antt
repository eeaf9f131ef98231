-- ===== src/Pubver/Examples/Settings.antt =====
-- The theorems on the settings, for packages that know two secrets.
use diasoft.Prelude.{
  ℕ, String, ◌≡◌, refl, inr, Option, none, some, [], ◌∷◌, true, ◌||◌, Eq-nat, ok, pos, trim_space,
  ◌==◌, Eq-string, if◌then◌else◌,
}
use diasoft.Gateway.Sealing.{Bytes, Suite, derive_aes256_key, decode_exact_key}
use diasoft.Pubver.Config.{
  Tools, Config, Environ, derive_jwt_enc_key, decode_jwt_enc_key_hex, decode_jwt_enc_key_base64,
  exactly_32, load_jwt_enc_key, load_database_url, check_rate_limit, load,
}
use diasoft.Pubver.Config.Keys.{
  SamePackages, derive_jwt_enc_key-derive_aes256_key, derive_jwt_enc_key_unpadded,
}
use diasoft.Pubver.Config.Usable.{PackageLaws, IsUsable, load-IsUsable}

abbrev key : Bytes
key =
    1 ∷ 2 ∷ 3 ∷ 4 ∷ 5 ∷ 6 ∷ 7 ∷ 8 ∷ 1 ∷ 2 ∷ 3 ∷ 4 ∷ 5 ∷ 6 ∷ 7 ∷ 8 ∷ 1 ∷ 2 ∷ 3 ∷ 4 ∷ 5 ∷ 6 ∷ 7 ∷ 8
    ∷ 1 ∷ 2 ∷ 3 ∷ 4 ∷ 5 ∷ 6 ∷ 7 ∷ 8 ∷ []

abbrev padded : String → Option Bytes
padded text = if text == "key=" then some key else none

abbrev unpadded : String → Option Bytes
unpadded text = if text == "key" then some key else none

abbrev tools : Tools ℕ
tools = record {
  parse_float = λ text. some 7;
  at_most_zero = λ n. n == 0;
  five = 5;
  parse_duration = λ text. some (pos 60);
  decode_hex = λ text. none;
  decode_base64 = padded;
  decode_raw_base64 = unpadded;
  bytes_of = λ text. [];
  sha256 = λ b. key;
  url_of = λ user password host port database mode. "postgres";
}

abbrev suite : Suite
suite = record {
  encode_base64 = λ b. "key=";
  decode_base64 = padded;
  decode_hex = λ text. none;
  bytes_of = λ text. [];
  sha256 = λ b. key;
  gcm_seal = λ k nonce text. text;
  gcm_open = λ k nonce text. some text;
}

same : SamePackages suite tools
same = record { hex = λ _. refl; base64 = λ _. refl; bytes = λ _. refl; sha256 = λ _. refl }

derive_jwt_enc_key-derive_aes256_key_example : derive_jwt_enc_key tools " key= " ≡ ok key
unfolding derive_aes256_key decode_exact_key trim_space
derive_jwt_enc_key-derive_aes256_key_example =
    derive_jwt_enc_key-derive_aes256_key suite tools " key= " key same (inr (key, refl)) refl

derive_jwt_enc_key_unpadded_example :
    (derive_jwt_enc_key tools "key" ≡ ok key)
    × (derive_aes256_key suite "key" ≡ ok (suite.sha256 (suite.bytes_of "key")))
unfolding trim_space
derive_jwt_enc_key_unpadded_example =
    derive_jwt_enc_key_unpadded suite tools "key" key same refl refl refl refl refl

abbrev environ : Environ
environ name =
    if name == "POSTGRES_HOST" || name == "POSTGRES_DB" || name == "POSTGRES_USER"
    then "db"
    else if name == "JWT_ENC_SECRET"
    then "key="
    else ""

tools-PackageLaws : PackageLaws tools
tools-PackageLaws = record {
  digest = λ _. refl;
  url = λ user password host port database mode. refl;
}

abbrev settings : Config ℕ
settings = record {
  http_addr = ":8080";
  database_url = "postgres";
  request_timeout = pos 60;
  log_level = "info";
  db_max_conns = pos 10;
  jwt_enc_key = key;
  rate_limit = record {
    enabled = true;
    requests_per_sec = 5;
    burst = pos 20;
    visitor_ttl = pos 60;
    cleanup_interval = pos 60;
  };
}

loaded : load tools environ ≡ ok settings
unfolding load check_rate_limit load_database_url load_jwt_enc_key derive_jwt_enc_key
    decode_jwt_enc_key_hex decode_jwt_enc_key_base64 exactly_32 trim_space
loaded = refl

load-IsUsable_example : IsUsable tools settings
load-IsUsable_example = load-IsUsable tools tools-PackageLaws environ settings loaded
