-- ===== src/Gateway/Sealing.antt =====
-- gateway-service/internal/infrastructure/security/key_encryptor.go, and the derivation of keys in
-- qr_payload_codec.go.
pub mod Opening
use Prim.Native.String
use diasoft.Prelude.{
  ℕ, ◌+◌, String, code, Option, none, some, List, [], ◌∷◌, ◌++◌, Bool, true, false, not, ◌&&◌, ◌||◌,
  Result, ok, err, ◌>>=◌, ◌>>◌, guard, ltb, length, take, drop, trim_space, is_empty, ◌==◌, Eq-nat,
  if◌then◌else◌,
}
use diasoft.Gateway.Model.{Error, message}

abbrev pub Bytes : Type 0
Bytes = List ℕ

-- The packages of Go: base64, hex, SHA-256, and AES-GCM with a key, a nonce and a text.
pub record Suite : Type 0 where
  pub encode_base64 : Bytes → String
  pub decode_base64 : String → Option Bytes
  pub decode_hex : String → Option Bytes
  pub bytes_of : String → Bytes
  pub sha256 : Bytes → Bytes
  pub gcm_seal : Bytes → Bytes → Bytes → Bytes
  pub gcm_open : Bytes → Bytes → Bytes → Option Bytes

abbrev pub given : {A : Type 0} → Option A → String → Result Error A
given none text = err (message text)
given (some a) text = ok a

abbrev pub exact : Option Bytes → Option Bytes
exact none = none
exact (some key) = if length key == 32 then some key else none

abbrev pub or_else : Option Bytes → Option Bytes → Option Bytes
or_else (some b) other = some b
or_else none other = other

unfoldable pub decode_exact_key : Suite → String → Option Bytes
decode_exact_key s secret = or_else (exact (s.decode_hex secret)) (exact (s.decode_base64 secret))

abbrev or_bytes : Option Bytes → Bytes → Bytes
or_bytes (some b) other = b
or_bytes none other = other

unfoldable pub best_effort_secret_bytes : Suite → String → Bytes
best_effort_secret_bytes s secret =
    or_bytes (or_else (s.decode_hex secret) (s.decode_base64 secret)) (s.bytes_of secret)

unfoldable pub derive_aes256_key : Suite → String → Result Error Bytes
unfolding decode_exact_key best_effort_secret_bytes
derive_aes256_key s secret =
    let trimmed = trim_space secret in
    if is_empty trimmed
    then err (message "qr payload encryption secret must not be empty")
    else ok (or_bytes (decode_exact_key s trimmed) (s.sha256 (best_effort_secret_bytes s trimmed)))

-- The keys that aes.NewCipher takes.
abbrev pub is_aes_key : Bytes → Bool
is_aes_key key = length key == 16 || length key == 24 || length key == 32

-- GCM.NonceSize()
abbrev pub nonce_size : ℕ
nonce_size = 12

-- The calls that seal a text behind its nonce, which is none if the reader of random bytes fails.
unfoldable pub seal_bytes : Suite → Bytes → Option Bytes → Bytes → Result Error Bytes
seal_bytes s key random plaintext = do
  guard (is_aes_key key) (message "crypto/aes: invalid key size")
  nonce ← given random "random"
  ok (nonce ++ s.gcm_seal key nonce plaintext)

-- The calls that open it, where what is too short has the given error.
unfoldable pub open_bytes : Suite → Bytes → String → Bytes → Result Error Bytes
open_bytes s key short raw = do
  guard (is_aes_key key) (message "crypto/aes: invalid key size")
  guard (not (ltb (length raw) nonce_size)) (message short)
  given (s.gcm_open key (take nonce_size raw) (drop nonce_size raw))
      "cipher: message authentication failed"

abbrev pub prefix : String
prefix = "v1:"

-- strings.HasPrefix and strings.TrimPrefix with the prefix
unfoldable pub without_prefix : String → Option String
without_prefix String.[] = none
without_prefix (String.◌∷◌ a String.[]) = none
without_prefix (String.◌∷◌ a (String.◌∷◌ b String.[])) = none
without_prefix (String.◌∷◌ a (String.◌∷◌ b (String.◌∷◌ c s))) =
    if code a == b'v' && code b == b'1' && code c == b':' then some s else none

-- KeyEncryptor.Seal and KeyEncryptor.Open
unfoldable pub seal : Suite → Bytes → Option Bytes → Bytes → Result Error String
seal s key random plaintext = do
  payload ← seal_bytes s key random plaintext
  ok (String.◌∷◌ "v" (String.◌∷◌ "1" (String.◌∷◌ ":" (s.encode_base64 payload))))

unfoldable pub opened : Suite → Bytes → String → Result Error Bytes
opened s key value = do
  text ← given (without_prefix value) "unsupported sealed payload version"
  raw ← given (s.decode_base64 text) "illegal base64 data"
  open_bytes s key "sealed payload is too short" raw
