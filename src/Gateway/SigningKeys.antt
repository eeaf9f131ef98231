-- ===== src/Gateway/SigningKeys.antt =====
-- The signing key of a university: internal/service/signing_keys.go, internal/repository/postgres/
-- signing_key_repository.go and internal/infrastructure/security/ed25519_keys.go of gateway-service.
pub mod Agreed
pub mod Settled
use diasoft.Prelude.{
  ℕ, String, Option, none, some, List, [], ◌∷◌, ◌++◌, Bool, true, false, ◌&&◌, Result, ok, err, any,
  find, update, ltb, char_count, blank, trim_space, ◌==◌, Eq-string, Eq-nat, if◌then◌else◌,
}
use diasoft.Gateway.Model.{
  Error, no_rows, rejected, message, invalid_signing_key, signing_key_mismatch,
  signing_key_not_found,
}
use diasoft.Gateway.Sealing.{Bytes}
use diasoft.Gateway.Accounts.{
  University, SigningKey, Accounts, Surroundings, Call, ◌>>=◌, pure, of_result, reads, statement,
  row_of, has_id, find_by_id, update_public_key, select_signing_key, upsert_signing_key,
}

-- The packages pem, x509, ed25519 and hex. A key that x509 reads comes with whether it is one of
-- Ed25519.
pub record Tools : Type 0 where
  pub pem_decode : String → Option Bytes
  pub pem_encode : Bytes → String
  pub parse_pkcs8 : Bytes → Option (Bool × Bytes)
  pub parse_pkix : Bytes → Option (Bool × Bytes)
  pub marshal_pkix : Bytes → Option Bytes
  pub public_of : Bytes → Bytes
  pub sha256 : Bytes → Bytes
  pub hex : Bytes → String

abbrev ed25519_of : String → Option (Bool × Bytes) → Result Error Bytes
ed25519_of other none = err (message "x509")
ed25519_of other (some (false, key)) = err (message other)
ed25519_of other (some (true, key)) = ok key

unfoldable pub parse_ed25519_private_key_pem : Tools → String → Result Error Bytes
parse_ed25519_private_key_pem t value = elim (t.pem_decode value) [
  | none ↦ err (message "failed to decode private key pem")
  | some block ↦ ed25519_of "private key is not Ed25519" (t.parse_pkcs8 block)
]

unfoldable pub parse_ed25519_public_key_pem : Tools → String → Result Error Bytes
parse_ed25519_public_key_pem t value = elim (t.pem_decode value) [
  | none ↦ err (message "failed to decode public key pem")
  | some block ↦ ed25519_of "public key is not Ed25519" (t.parse_pkix block)
]

unfoldable pub marshal_ed25519_public_key_pem : Tools → Bytes → Result Error String
marshal_ed25519_public_key_pem t key = elim (t.marshal_pkix key) [
  | none ↦ err (message "x509")
  | some der ↦ ok (trim_space (t.pem_encode der))
]

abbrev pub fingerprint_ed25519_public_key : Tools → Bytes → String
fingerprint_ed25519_public_key t key = t.hex (t.sha256 key)

abbrev pub signing_key_of : String → SigningKey → Bool
signing_key_of vuz_id k = k.vuz_id == vuz_id

-- The columns that a conflict replaces.
abbrev pub replaced : ℕ → String → String → SigningKey → SigningKey
replaced now encrypted fingerprint k = record k {
  encrypted_private_key = encrypted;
  key_algorithm = "ed25519";
  encryption_algorithm = "aes-256-gcm";
  public_key_fingerprint = fingerprint;
  updated_at = now;
}

abbrev pub fresh_key : ℕ → String → String → String → SigningKey
fresh_key now vuz_id encrypted fingerprint = record {
  vuz_id = vuz_id;
  encrypted_private_key = encrypted;
  key_algorithm = "ed25519";
  encryption_algorithm = "aes-256-gcm";
  public_key_fingerprint = fingerprint;
  created_at = now;
  updated_at = now;
}

abbrev pub with_key : ℕ → String → String → String → List SigningKey → List SigningKey
with_key now vuz_id encrypted fingerprint ks =
    if any (signing_key_of vuz_id) ks
    then update (signing_key_of vuz_id) (replaced now encrypted fingerprint) ks
    else ks ++ fresh_key now vuz_id encrypted fingerprint ∷ []

-- INSERT ... ON CONFLICT (vuz_id) DO UPDATE ... RETURNING: VARCHAR(64), the reference to the
-- university.
unfoldable pub upsert_row : Surroundings → String → String → String → Call SigningKey
upsert_row env vuz_id encrypted fingerprint = statement env upsert_signing_key λ db.
    let keys = with_key env.now vuz_id encrypted fingerprint db.signing_keys in
    if ltb 64 (char_count fingerprint)
    then (err rejected, db)
    else if any (has_id vuz_id) db.universities
    then elim (find (signing_key_of vuz_id) keys) [
      | none ↦ (err no_rows, db)
      | some k ↦ (ok k, record db { signing_keys = keys })
    ]
    else (err rejected, db)

unfoldable pub find_by_vuz_id : Surroundings → String → Accounts → Result Error SigningKey
find_by_vuz_id env vuz_id db =
    row_of env select_signing_key (find (signing_key_of vuz_id) db.signing_keys)

-- SigningKeyService, with Seal of its encryptor.
pub record Service : Type 0 where
  pub tools : Tools
  pub seal : String → Result Error String

-- SigningKeyStatusResponse, less the flag that it always sets
pub record KeyStatus : Type 0 where
  pub key_algorithm : String
  pub encryption_algorithm : String
  pub public_key_fingerprint : String
  pub updated_at : ℕ

abbrev pub to_signing_key_status_response : SigningKey → KeyStatus
to_signing_key_status_response k = record {
  key_algorithm = k.key_algorithm;
  encryption_algorithm = k.encryption_algorithm;
  public_key_fingerprint = k.public_key_fingerprint;
  updated_at = k.updated_at;
}

unfoldable pub same_bytes : Bytes → Bytes → Bool
same_bytes [] [] = true
same_bytes [] (b ∷ bs) = false
same_bytes (a ∷ as') [] = false
same_bytes (a ∷ as') (b ∷ bs) = a == b && same_bytes as' bs

-- The key that the university has must be the derived one; where it has none, it gets that.
unfoldable pub settle_public_key :
    Tools → Surroundings → String → Option String → Bytes → String → Call Unit
unfolding same_bytes
settle_public_key t env vuz_id held public public_pem = elim held [
  | none ↦ update_public_key env vuz_id public_pem
  | some stored ↦
      if blank stored
      then update_public_key env vuz_id public_pem
      else of_result (elim (parse_ed25519_public_key_pem t stored) [
        | err _ ↦ err signing_key_mismatch
        | ok key ↦ if same_bytes key public then ok tt else err signing_key_mismatch
      ])
]

abbrev invalid : {A : Type 0} → Result Error A → Result Error A
invalid (ok a) = ok a
invalid (err e) = err invalid_signing_key

unfoldable pub upsert : Service → Surroundings → String → String → Call KeyStatus
upsert s env vuz_id private_key_pem = do
  private ← of_result (invalid (parse_ed25519_private_key_pem s.tools private_key_pem))
  let public = s.tools.public_of private
  public_pem ← of_result (marshal_ed25519_public_key_pem s.tools public)
  u ← reads (find_by_id env vuz_id)
  _ ← settle_public_key s.tools env vuz_id u.public_key public public_pem
  encrypted ← of_result (s.seal private_key_pem)
  item ← upsert_row env vuz_id encrypted (fingerprint_ed25519_public_key s.tools public)
  pure (to_signing_key_status_response item)

abbrev not_found : Error → Error
not_found no_rows = signing_key_not_found
not_found other = other

unfoldable pub status : Surroundings → String → Accounts → Result Error KeyStatus
status env vuz_id db = elim (find_by_vuz_id env vuz_id db) [
  | ok k ↦ ok (to_signing_key_status_response k)
  | err e ↦ err (not_found e)
]
