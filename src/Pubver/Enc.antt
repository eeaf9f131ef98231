-- ===== src/Pubver/Enc.antt =====
-- pubver/pkg/verifyhash/a256gcm.go: the encrypted part of a diploma's token.
use diasoft.Prelude.{
  ℕ, ◌+◌, String, Option, Bool, not, ◌&&◌, ◌||◌, Result, ok, err, ◌>>=◌, ◌>>◌, guard, ℤ, ltb,
  length, take, drop, trim_space, blank, is_empty, ◌==◌, Eq-string, Eq-nat, if◌then◌else◌,
}
use diasoft.Pubver.Domain.{Error, message, foreign}
use diasoft.Pubver.Hash.{HashInput, validate_core}
use diasoft.Pubver.Jwt.{Bytes, Codec, required}

pub record EncPayload : Type 0 where
  pub full_name : String
  pub student_name : String
  pub diploma_number : String
  pub specialty : String
  pub degree : String
  pub faculty : String
  pub year : ℤ
  pub salt : String

-- The packages of Go that open a payload: AES-GCM with a key, a nonce and a ciphertext, and the JSON
-- decoder that refuses unknown fields.
pub record Opener : Type 0 where
  pub gcm_open : Bytes → Bytes → Bytes → Option Bytes
  pub json_payload : Bytes → Option EncPayload

-- GCM.NonceSize() and GCM.Overhead()
abbrev pub nonce_size : ℕ
nonce_size = 12

abbrev pub overhead : ℕ
overhead = 16

-- The keys that aes.NewCipher takes.
abbrev is_aes_key : Bytes → Bool
is_aes_key key = length key == 16 || length key == 24 || length key == 32

-- The payload with both names trimmed.
abbrev trimmed : EncPayload → EncPayload
trimmed p = record p {
  full_name = trim_space p.full_name;
  student_name = trim_space p.student_name;
}

-- The name that is left over by the two tests of `normalize`, for names that are trimmed.
abbrev settle_names : EncPayload → Result Error EncPayload
settle_names p =
    if is_empty p.full_name && not (is_empty p.student_name)
    then ok (record p { full_name = p.student_name })
    else if not (is_empty p.full_name)
        && not (is_empty p.student_name)
        && not (p.full_name == p.student_name)
    then err (message "full_name and student_name must match when both are present")
    else ok p

unfoldable pub normalize : EncPayload → Result Error EncPayload
normalize p = settle_names (trimmed p)

unfoldable pub validate : EncPayload → Result Error Unit
unfolding validate_core
validate p = do
  validate_core p.full_name p.diploma_number p.specialty p.year
  guard (not (blank p.salt)) (message "salt must not be empty")

abbrev pub hash_input : EncPayload → String → HashInput
hash_input p vuz_id = record {
  full_name = p.full_name;
  diploma_number = p.diploma_number;
  specialty = p.specialty;
  degree = p.degree;
  faculty = p.faculty;
  year = p.year;
  vuz_id = vuz_id;
  salt = p.salt;
}

unfoldable pub decode_encrypted_value : Codec → String → Result Error Bytes
decode_encrypted_value c value = do
  guard (not (blank value)) (message "enc must not be empty")
  required (c.std_base64 (trim_space value)) foreign

unfoldable pub decrypt_encrypted_diploma_payload :
    Codec → Opener → String → Bytes → Result Error EncPayload
unfolding decode_encrypted_value normalize validate
decrypt_encrypted_diploma_payload c o enc_value key = do
  raw ← decode_encrypted_value c enc_value
  guard (is_aes_key key) foreign
  guard (not (ltb (length raw) (nonce_size + overhead)))
      (message "enc must contain nonce and ciphertext")
  plaintext ← required (o.gcm_open key (take nonce_size raw) (drop nonce_size raw)) foreign
  decoded ← required (o.json_payload plaintext) foreign
  payload ← normalize decoded
  validate payload
  ok payload
