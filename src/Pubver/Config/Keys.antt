-- ===== src/Pubver/Config/Keys.antt =====
-- The key of the verification service against the one of the gateway.
use diasoft.Prelude.{
  String, ◌≡◌, ◌⊎◌, inl, inr, none, some, false, ok, length, trim_space, is_empty, Eq-nat, arith,
  Option-cases,
}
use diasoft.Gateway.Sealing
use diasoft.Gateway.Sealing.{Bytes, Suite, derive_aes256_key, decode_exact_key}
use diasoft.Pubver.Config.{
  Tools, exactly_32, decode_jwt_enc_key_hex, decode_jwt_enc_key_base64, best_effort_secret_bytes,
  derive_jwt_enc_key,
}

-- The functions of the packages that both services use.
pub record SamePackages {Float : Type 0} (s : Suite) (t : Tools Float) : Type 0 where
  pub hex : (text : String) → t.decode_hex text ≡ s.decode_hex text
  pub base64 : (text : String) → t.decode_base64 text ≡ s.decode_base64 text
  pub bytes : (text : String) → t.bytes_of text ≡ s.bytes_of text
  pub sha256 : (b : Bytes) → t.sha256 b ≡ s.sha256 b

-- If the secret, less its spaces, is base64 with its padding or no base64 that lacks it, the
-- verification service derives the key that the gateway derives from the same secret.
pub derive_jwt_enc_key-derive_aes256_key :
    {Float : Type 0} (s : Suite) (t : Tools Float) (secret : String) (key : Bytes)
    → SamePackages s t
    → (t.decode_raw_base64 (trim_space secret) ≡ none)
      ⊎ ((b : Bytes) × (t.decode_base64 (trim_space secret) ≡ some b))
    → derive_aes256_key s secret ≡ ok key
    → derive_jwt_enc_key t secret ≡ ok key
unfolding derive_aes256_key decode_exact_key Sealing.best_effort_secret_bytes derive_jwt_enc_key
    decode_jwt_enc_key_hex decode_jwt_enc_key_base64 best_effort_secret_bytes exactly_32
derive_jwt_enc_key-derive_aes256_key s t secret key same padded derived =
    let x = trim_space secret in
    elim (Option-cases (t.decode_hex x)) [
      | inl no_hex ↦ elim (Option-cases (t.decode_base64 x)) [
        | inl no_base64 ↦ elim padded [
          | inl no_raw ↦
              ground (arith, same.hex x, same.base64 x, same.bytes x, same.sha256 (t.bytes_of x))
          | inr (b, given) ↦ absurd (ground arith)
        ]
        | inr (b, given) ↦ ground (arith, same.hex x, same.base64 x, same.sha256 b)
      ]
      | inr (h, hex) ↦ elim (Option-cases (t.decode_base64 x)) [
        | inl no_base64 ↦ elim padded [
          | inl no_raw ↦ ground (arith, same.hex x, same.base64 x, same.sha256 h)
          | inr (b, given) ↦ absurd (ground arith)
        ]
        | inr (b, given) ↦ ground (arith, same.hex x, same.base64 x, same.sha256 h)
      ]
    ]

-- A secret that is base64 of 32 bytes without its padding, and neither hexadecimal nor base64 with it,
-- is the key itself to the verification service, and to the gateway a text whose SHA-256 is the key.
pub derive_jwt_enc_key_unpadded :
    {Float : Type 0} (s : Suite) (t : Tools Float) (secret : String) (b : Bytes)
    → SamePackages s t
    → is_empty (trim_space secret) ≡ false
    → t.decode_hex (trim_space secret) ≡ none
    → t.decode_base64 (trim_space secret) ≡ none
    → t.decode_raw_base64 (trim_space secret) ≡ some b
    → length b ≡ 32
    → (derive_jwt_enc_key t secret ≡ ok b)
      × (derive_aes256_key s secret ≡ ok (s.sha256 (s.bytes_of (trim_space secret))))
unfolding derive_aes256_key decode_exact_key Sealing.best_effort_secret_bytes derive_jwt_enc_key
    decode_jwt_enc_key_hex decode_jwt_enc_key_base64 best_effort_secret_bytes exactly_32
derive_jwt_enc_key_unpadded s t secret b same given no_hex no_base64 raw long =
    let x = trim_space secret in (ground arith, ground (arith, same.hex x, same.base64 x))
