-- ===== src/Gateway/Examples/Keys.antt =====
-- The theorems on the keys of a university at one key.
use diasoft.Prelude.{
  ◌++◌, count, ◌==◌, Eq-string, ◌≡◌, refl, none, some, [], ◌∷◌, Bool-cases, inl, inr, if◌then◌else◌,
  true, ok, arith, trim_space,
}
use diasoft.Gateway.Accounts.{ApiKey, update_public_key, find_by_id}
use diasoft.Gateway.ApiKeys.{Service, Created, create, create_api_key, resolve_active_university}
use diasoft.Gateway.ApiKeys.Resolved.{resolve_active_university-create}
use diasoft.Gateway.SigningKeys.{
  Tools, KeyStatus, upsert, upsert_row, settle_public_key, same_bytes,
  parse_ed25519_private_key_pem, parse_ed25519_public_key_pem, marshal_ed25519_public_key_pem,
}
use diasoft.Gateway.SigningKeys.Settled.{same_bytes-eq, MarshalLaw}
use diasoft.Gateway.SigningKeys.Agreed.{Agrees, upsert-Agrees}
use diasoft.Gateway.Examples.Entry.{accounts, surroundings, owner}
use diasoft.Gateway.SigningKeys

abbrev key_service : Service
key_service = record { hash_api_key = λ text. text; generate_api_key = ok "vuz_1" }

abbrev made : Created
made = record { id = "x"; name = none; api_key = "vuz_1"; created_at = 100 }

created :
    create key_service surroundings "u1" none accounts
    ≡ (ok made, (create key_service surroundings "u1" none accounts).1)
unfolding create create_api_key
created = refl

resolve_active_university-create_example :
    (key : ApiKey) × (resolve_active_university key_service surroundings "vuz_1"
        (create key_service surroundings "u1" none accounts).1
      ≡ ok (record owner { vuz_code = "" }, key))
    × (key.key_hash ≡ "vuz_1")
    × (key.vuz_id ≡ "u1")
    × (key.is_active ≡ true)
    × ((create key_service surroundings "u1" none accounts).1.api_keys
        ≡ accounts.api_keys ++ key ∷ [])
    × (count
          (λ k. k.key_hash == "vuz_1")
          (create key_service surroundings "u1" none accounts).1.api_keys
        ≡ 1)
resolve_active_university-create_example =
    resolve_active_university-create key_service surroundings surroundings "u1" none made accounts
      (create key_service surroundings "u1" none accounts).1 owner created refl refl

-- Packages with one key.
abbrev one_key : Tools
one_key = record {
  pem_decode = λ text. some [];
  pem_encode = λ der. "pem";
  parse_pkcs8 = λ der. some (true, 7 ∷ []);
  parse_pkix = λ der. some (true, 8 ∷ []);
  marshal_pkix = λ key. if same_bytes key (8 ∷ []) then some key else none;
  public_of = λ key. 8 ∷ [];
  sha256 = λ bytes. bytes;
  hex = λ bytes. "08";
}

one_key-MarshalLaw : MarshalLaw one_key
unfolding MarshalLaw marshal_ed25519_public_key_pem parse_ed25519_public_key_pem
one_key-MarshalLaw key text written = elim (Bool-cases (same_bytes key (8 ∷ []))) [
  | inl same ↦ ground (arith, same_bytes-eq key (8 ∷ []) same)
  | inr other ↦ absurd (ground arith)
]

abbrev pub signing_service : SigningKeys.Service
signing_service = record { tools = one_key; seal = λ text. ok "sealed" }

abbrev shown : KeyStatus
shown = record {
  key_algorithm = "ed25519";
  encryption_algorithm = "aes-256-gcm";
  public_key_fingerprint = "08";
  updated_at = 100;
}

accepted :
    upsert signing_service surroundings "u1" "private" accounts
    ≡ (ok shown, (upsert signing_service surroundings "u1" "private" accounts).1)
unfolding upsert upsert_row settle_public_key same_bytes parse_ed25519_private_key_pem
    marshal_ed25519_public_key_pem find_by_id update_public_key trim_space
accepted = refl

upsert-Agrees_example :
    Agrees signing_service "u1" "private" accounts
      (upsert signing_service surroundings "u1" "private" accounts).1
      shown
upsert-Agrees_example =
    upsert-Agrees signing_service surroundings "u1" "private" accounts
      (upsert signing_service surroundings "u1" "private" accounts).1 shown one_key-MarshalLaw
      accepted
