-- ===== src/Pubver/Jwt.antt =====
-- pubver/pkg/verifyhash/qr_jwt.go and ed25519.go: reading the claims of a token, and checking its
-- signature.
pub mod Segments
use Prim.Native.String
use diasoft.Prelude.{
  ℕ, zero, suc, ◌+◌, ◌-◌, ◌*◌, ◌%◌, ◌^◌, Char, code, String, Option, none, some, List, [], ◌∷◌,
  Bool, true, false, not, ◌&&◌, ◌||◌, Result, ok, err, ◌>>=◌, ◌>>◌, guard, ℤ, parse_int64, pos,
  negsuc, ltb, leb, length, char_count, trim_space, blank, is_empty, split, ltb_ℤ, ◌==◌, Eq-string,
  Eq-nat, if◌then◌else◌,
}
use diasoft.Pubver.Domain.{Error, message, foreign}

abbrev pub Bytes : Type 0
Bytes = List ℕ

-- A value of a claim. A json.Number keeps its text; of a float64 the model keeps the integer that it
-- is, if it is one.
pub data Value : Type 0 where
  text : String → Value
  number : String → Value
  float64 : Option ℤ → Value
  int : ℤ → Value
  int64 : ℤ → Value
  other : Value

-- map[string]any
abbrev pub Claims : Type 0
Claims = String → Option Value

pub record JwtHeader : Type 0 where
  pub alg : String
  pub typ : String
  pub kid : String

-- The packages of Go that read tokens and keys: base64, hex, JSON, PEM, X.509, Ed25519. Reading a
-- PKIX key gives a key and whether it is an Ed25519 key.
pub record Codec : Type 0 where
  pub raw_url_base64 : String → Option Bytes
  pub std_base64 : String → Option Bytes
  pub raw_std_base64 : String → Option Bytes
  pub hex : String → Option Bytes
  pub json_claims : Bytes → Option Claims
  pub json_header : Bytes → Option JwtHeader
  pub pem : String → Option Bytes
  pub pkix : Bytes → Option (Bool × Bytes)
  pub ed25519_verify : Bytes → String → Bytes → Bool

abbrev pub required : {A : Type 0} → Option A → Error → Result Error A
required none e = err e
required (some a) e = ok a

abbrev three : List String → Option (String × String × String)
three (a ∷ b ∷ c ∷ []) = some (a, b, c)
three _ = none

unfoldable pub split_jwt : String → Result Error (String × String × String)
split_jwt token = required (three (split b'.' token)) (message "token must have 3 segments")

unfoldable pub decode_unverified_jwt : Codec → String → Result Error Claims
unfolding split_jwt
decode_unverified_jwt c token = do
  (head, body, signature) ← split_jwt token
  payload ← required (c.raw_url_base64 body) foreign
  required (c.json_claims payload) foreign

unfoldable pub decode_unverified_jwt_header : Codec → String → Result Error JwtHeader
unfolding split_jwt
decode_unverified_jwt_header c token = do
  (head, body, signature) ← split_jwt token
  bytes ← required (c.raw_url_base64 head) foreign
  required (c.json_header bytes) foreign

abbrev pub signing_input : String → String → String
signing_input head body = String.◌++◌ head (String.◌++◌ "." body)

unfoldable pub decode_jwt_for_verification :
    Codec → String → Result Error (JwtHeader × String × Bytes)
unfolding decode_unverified_jwt_header
decode_jwt_for_verification c token = do
  (head, body, signature) ← split_jwt token
  header ← decode_unverified_jwt_header c token
  bytes ← required (c.raw_url_base64 signature) foreign
  ok (header, signing_input head body, bytes)

missing : String → Error
missing key = message (String.◌++◌ "claim is missing: " key)

not_text : String → Error
not_text key = message (String.◌++◌ "claim must be a non-empty string: " key)

not_integer : String → Error
not_integer key = message (String.◌++◌ "claim must be an integer: " key)

too_large : String → Error
too_large key = message (String.◌++◌ "claim exceeds safe integer range: " key)

unfoldable pub extract_string_claim : Claims → String → Result Error String
unfolding missing not_text
extract_string_claim claims key = elim (claims key) [
  | none ↦ err (missing key)
  | some (text s) ↦ if blank s then err (not_text key) else ok (trim_space s)
  | some _ ↦ err (not_text key)
]

unfoldable pub optional_string_claim : Claims → String → String
optional_string_claim claims key = elim (claims key) [
  | none ↦ ""
  | some (text s) ↦ trim_space s
  | some _ ↦ ""
]

abbrev is_safe : ℤ → Bool
is_safe (pos n) = leb n (2 ^ 53)
is_safe (negsuc n) = ltb n (2 ^ 53)

integer_of : String → Value → Result Error ℤ
unfolding not_integer too_large parse_int64
integer_of key (number s) = required (parse_int64 s) (not_integer key)
integer_of key (float64 none) = err (not_integer key)
integer_of key (float64 (some n)) = if is_safe n then ok n else err (too_large key)
integer_of key (int n) = ok n
integer_of key (int64 n) = ok n
integer_of key _ = err (not_integer key)

unfoldable pub extract_int64_claim : Claims → String → Result Error ℤ
unfolding integer_of missing
extract_int64_claim claims key = elim (claims key) [
  | none ↦ err (missing key)
  | some v ↦ integer_of key v
]

pub record OuterQrClaims : Type 0 where
  pub sub : String
  pub diploma_hash : String
  pub vuz_id : String
  pub enc : String
  pub issued_at : ℤ

unfoldable pub extract_vuz_id_from_map : Claims → Result Error String
unfolding extract_string_claim
extract_vuz_id_from_map claims = extract_string_claim claims "vuz_id"

abbrev pub or_sub : String → String → String
or_sub diploma_hash sub = if is_empty diploma_hash then sub else diploma_hash

unfoldable pub extract_outer_qr_claims_from_map : Claims → Result Error OuterQrClaims
unfolding extract_vuz_id_from_map extract_int64_claim optional_string_claim
extract_outer_qr_claims_from_map claims = do
  vuz_id ← extract_vuz_id_from_map claims
  issued_at ← extract_int64_claim claims "iat"
  sub ← extract_string_claim claims "sub"
  enc ← extract_string_claim claims "enc"
  ok (record {
    sub = sub;
    diploma_hash = or_sub (optional_string_claim claims "diploma_hash") sub;
    vuz_id = vuz_id;
    enc = enc;
    issued_at = issued_at;
  })

unfoldable pub extract_outer_qr_claims : Codec → String → Result Error OuterQrClaims
unfolding decode_unverified_jwt extract_outer_qr_claims_from_map
extract_outer_qr_claims c token = do
  claims ← decode_unverified_jwt c token
  extract_outer_qr_claims_from_map claims

abbrev is_hex_digit : ℕ → Bool
is_hex_digit r =
    (leb b'0' r && leb r b'9') || (leb b'a' r && leb r b'f') || (leb b'A' r && leb r b'F')

all_hex : String → Bool
all_hex String.[] = true
all_hex (String.◌∷◌ c s) = is_hex_digit (code c) && all_hex s

-- Where all are digits, the bytes that Go counts are the characters.
looks_like_hex : String → Bool
unfolding all_hex
looks_like_hex s = not (is_empty s) && char_count s % 2 == 0 && all_hex s

abbrev ed25519_of : Option (Bool × Bytes) → Result Error Bytes
ed25519_of none = err foreign
ed25519_of (some (true, key)) = ok key
ed25519_of (some (false, key)) = err (message "public key must be Ed25519")

parse_ed25519_public_key_bytes : Codec → Bytes → Result Error Bytes
parse_ed25519_public_key_bytes c raw = if length raw == 32 then ok raw else ed25519_of (c.pkix raw)

-- The texts that base64 reads, with padding or without.
key_of_base64 : Codec → String → Result Error Bytes
unfolding parse_ed25519_public_key_bytes
key_of_base64 c s = elim (c.std_base64 s) [
  | some decoded ↦ parse_ed25519_public_key_bytes c decoded
  | none ↦ elim (c.raw_std_base64 s) [
    | some decoded ↦ parse_ed25519_public_key_bytes c decoded
    | none ↦ err (message "unsupported ed25519 public key format")
  ]
]

abbrev hex_of : Codec → String → Option Bytes
hex_of c s = if looks_like_hex s then c.hex s else none

unfoldable pub parse_ed25519_public_key : Codec → String → Result Error Bytes
unfolding key_of_base64 looks_like_hex
parse_ed25519_public_key c value =
    let trimmed = trim_space value in
    if is_empty trimmed then err (message "public key is empty") else elim (c.pem trimmed) [
      | some bytes ↦ parse_ed25519_public_key_bytes c bytes
      | none ↦ elim (hex_of c trimmed) [
        | some decoded ↦ parse_ed25519_public_key_bytes c decoded
        | none ↦ key_of_base64 c trimmed
      ]
    ]

unfoldable pub verify_ed25519_jwt : Codec → String → String → Result Error Unit
unfolding decode_jwt_for_verification parse_ed25519_public_key
verify_ed25519_jwt c token public_key_value = do
  (header, input, signature) ← decode_jwt_for_verification c token
  guard (header.alg == "EdDSA") (message "unsupported jwt alg")
  key ← parse_ed25519_public_key c public_key_value
  guard (c.ed25519_verify key input signature) (message "verify ed25519 jwt: signature is invalid")
