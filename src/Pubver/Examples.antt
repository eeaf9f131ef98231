-- ===== src/Pubver/Examples.antt =====
-- The theorems on the verification service at one token.
mod Clients
mod Removed
mod Status
mod Texts
mod Settings
use diasoft.Prelude.{
  is_some, Option, code, false, Eq-nat, ◌≡◌, ◌≢◌, ◌↔◌, ◌⊎◌, refl, String, none, some, [], ◌∷◌, true,
  false, ok, err, pos, split, trim_space, is_empty, equal_fold, ◌==◌, Eq-string, if◌then◌else◌,
}
use diasoft.Gateway.Model.{active}
use diasoft.Gateway.Store.{Db, HashRow}
use diasoft.Gateway.Removal.{Tables}
use diasoft.Gateway.Removal.Afterwards.{at_once, then_act, administer}
use diasoft.Gateway.Examples.Entry.{accounts}
use diasoft.Gateway.Examples.{empty_db, revoked_row, institution}
use diasoft.Pubver.Domain.{
  invalid_input, is_record_not_found, is_key_not_found, status_active, DiplomaRecord,
  VerifyResponse, SearchResponse,
}
use diasoft.Pubver.Hash.{validate_core, build_raw_diploma_string, hash_diploma_input}
use diasoft.Pubver.Jwt.{
  Codec, Claims, text, int, decode_unverified_jwt, decode_jwt_for_verification,
  extract_string_claim, extract_int64_claim, optional_string_claim, parse_ed25519_public_key,
  verify_ed25519_jwt, extract_outer_qr_claims_from_map,
}
use diasoft.Pubver.Enc.{EncPayload, decrypt_encrypted_diploma_payload, normalize, validate}
use diasoft.Pubver.Service.{
  VerificationService, verify_payload, answer, search, apply_encrypted_payload, to_verify_response,
  to_search_response,
}
use diasoft.Pubver.Service.Outcome.{Vouches, verify_payload-Vouches, verify_payload-valid}
use diasoft.Pubver.Service.Faults.{is_refusal, named_university, verify_payload_fault}
use diasoft.Pubver.Service.Filling.{Fills, apply_encrypted_payload_twice, search-valid}
use diasoft.Pubver.Repository.{
  repository, find_by_hash, find_by_diploma_number, find_university_verification_key_by_id,
}
use diasoft.Pubver.Repository.Answers.{Answers, repository-Answers}
use diasoft.Pubver.Repository.Registry.{verify_payload_revoked}

abbrev claims : Claims
claims key =
    if key == "vuz_id"
    then some (text "u1")
    else if key == "iat"
    then some (int (pos 7))
    else if key == "sub"
    then some (text "h1")
    else if key == "enc"
    then some (text "sealed")
    else none

abbrev pub codec : Codec
codec = record {
  raw_url_base64 = λ s. some (1 ∷ []);
  std_base64 = λ s. some (
      1 ∷ 2 ∷ 3 ∷ 4 ∷ 5 ∷ 6 ∷ 7 ∷ 8 ∷ 9 ∷ 10 ∷ 11 ∷ 12 ∷ 13 ∷ 14 ∷ 15 ∷ 16 ∷ 17 ∷ 18 ∷ 19 ∷ 20 ∷ 21
      ∷ 22 ∷ 23 ∷ 24 ∷ 25 ∷ 26 ∷ 27 ∷ 28 ∷ 29 ∷ []);
  raw_std_base64 = λ s. none;
  hex = λ s. none;
  json_claims = λ bytes. some claims;
  json_header = λ bytes. some (record { alg = "EdDSA"; typ = "JWT"; kid = "" });
  pem = λ s. none;
  pkix = λ bytes. some (true, bytes);
  ed25519_verify = λ key input signature. true;
}

abbrev payload : EncPayload
payload = record {
  full_name = "Ada";
  student_name = "";
  diploma_number = "D-1";
  specialty = "Maths";
  degree = "BSc";
  faculty = "Science";
  year = pos 2020;
  salt = "salt";
}

abbrev pub diploma_db : Db
diploma_db = record empty_db {
  hashes = record revoked_row { status = active; revoked_at = none } ∷ [];
}

-- Identifiers that start with a u.
abbrev pub as_uuid : String → Option String
as_uuid String.[] = none
as_uuid (String.◌∷◌ c s) = if code c == b'u' then some (String.◌∷◌ c s) else none

abbrev pub service_on : Db → VerificationService
service_on db = record {
  repo = repository false as_uuid db;
  enc_key = 1 ∷ 2 ∷ 3 ∷ 4 ∷ 5 ∷ 6 ∷ 7 ∷ 8 ∷ 9 ∷ 10 ∷ 11 ∷ 12 ∷ 13 ∷ 14 ∷ 15 ∷ 16 ∷ [];
  codec = codec;
  opener = record {
    gcm_open = λ key nonce ciphertext. some [];
    json_payload = λ bytes. some payload;
  };
  sum = λ raw. "h1";
}

abbrev diploma : DiplomaRecord
diploma = record {
  hash = "h1";
  diploma_number = "D-1";
  status = "active";
  university_code = "V1";
  university_name = "University";
  graduate_year = none;
  specialty = none;
  degree = none;
  faculty = none;
  qr_payload = none;
  revoked_at = none;
}

abbrev pub response : VerifyResponse
response = to_verify_response (record diploma {
  graduate_year = some (pos 2020);
  specialty = some "Maths";
  degree = some "BSc";
  faculty = some "Science";
})

verified : verify_payload (service_on diploma_db) " a.b.c " ≡ ok response
unfolding verify_payload decode_unverified_jwt extract_outer_qr_claims_from_map extract_string_claim
    extract_int64_claim optional_string_claim verify_ed25519_jwt decode_jwt_for_verification
    parse_ed25519_public_key decrypt_encrypted_diploma_payload normalize validate validate_core
    hash_diploma_input build_raw_diploma_string find_by_hash find_university_verification_key_by_id
    trim_space split equal_fold
verified = refl

verify_payload-Vouches_example :
    (verify_payload (service_on diploma_db) " a.b.c " ≡ ok response)
    ↔ (is_empty (trim_space " a.b.c ") ≡ false)
      × (hash : String) × (p : EncPayload) × Vouches
          (service_on diploma_db)
          (trim_space " a.b.c ")
          hash
          p
      × (answer hash p (find_by_hash false diploma_db hash) ≡ ok response)
verify_payload-Vouches_example = verify_payload-Vouches (service_on diploma_db) " a.b.c " response

verify_payload-valid_example :
    (hash : String) × (p : EncPayload) × Vouches
      (service_on diploma_db)
      (trim_space " a.b.c ")
      hash
      p
    × (d : DiplomaRecord) × (find_by_hash false diploma_db hash ≡ ok d)
    × (d.status ≡ status_active)
    × (response ≡ to_verify_response (apply_encrypted_payload d p))
verify_payload-valid_example =
    verify_payload-valid (service_on diploma_db) " a.b.c " response verified refl

abbrev found : SearchResponse
found = to_search_response diploma

searched : search (service_on diploma_db) "V1 " "D-1" ≡ ok found
unfolding search find_by_diploma_number trim_space
searched = refl

search-valid_example :
    (d : DiplomaRecord) × (d' : DiplomaRecord) × (find_by_diploma_number false diploma_db
        (trim_space "V1 ")
        (trim_space "D-1")
      ≡ ok d)
    × (d.status ≡ status_active)
    × Fills d d'
    × (found ≡ to_search_response d')
search-valid_example = search-valid (service_on diploma_db) "V1 " "D-1" found searched refl

repository-Answers_example : Answers as_uuid diploma_db (repository false as_uuid diploma_db)
repository-Answers_example = repository-Answers as_uuid diploma_db

abbrev gone : HashRow
gone = record revoked_row { hash = "h0"; diploma_number = "D-0" }

abbrev mixed_db : Db
mixed_db = record empty_db { hashes = gone ∷ diploma_db.hashes }

verified_mixed : verify_payload (service_on mixed_db) "a.b.c" ≡ ok response
unfolding verify_payload decode_unverified_jwt extract_outer_qr_claims_from_map extract_string_claim
    extract_int64_claim optional_string_claim verify_ed25519_jwt decode_jwt_for_verification
    parse_ed25519_public_key decrypt_encrypted_diploma_payload normalize validate validate_core
    hash_diploma_input build_raw_diploma_string find_by_hash find_university_verification_key_by_id
    trim_space split equal_fold
verified_mixed = refl

abbrev revoking : Tables
revoking = record { accounts = accounts; db = mixed_db }

verify_payload_revoked_example : response.hash ≢ gone.hash
verify_payload_revoked_example =
    verify_payload_revoked {start = revoking} {t = revoking} "h0" gone institution
      (service_on mixed_db) false as_uuid "a.b.c" response refl refl
      (then_act at_once (administer accounts mixed_db.universities revoking)) refl refl
      verified_mixed refl
