-- ===== src/Pubver/Examples/Removed.antt =====
-- The verification service after the removal of a university, beside a diploma of another one.
use diasoft.Prelude.{
  Eq-nat, ◌≡◌, ◌≢◌, refl, none, ◌∷◌, false, ok, arith, split, trim_space, equal_fold, Eq-string,
}
use diasoft.Gateway.Model.{active}
use diasoft.Gateway.Store.{HashRow}
use diasoft.Gateway.Removal.{
  Tables, delete_body, delete_cascade, delete_hashes_of, delete_university_of,
}
use diasoft.Gateway.Removal.Erased.{erased}
use diasoft.Gateway.Examples.{revoked_row, institution}
use diasoft.Gateway.Examples.Entry.{accounts, owner, surroundings}
use diasoft.Pubver.Hash.{validate_core, build_raw_diploma_string, hash_diploma_input}
use diasoft.Pubver.Jwt.{
  decode_unverified_jwt, decode_jwt_for_verification, extract_string_claim, extract_int64_claim,
  optional_string_claim, parse_ed25519_public_key, verify_ed25519_jwt,
  extract_outer_qr_claims_from_map,
}
use diasoft.Pubver.Enc.{decrypt_encrypted_diploma_payload, normalize, validate}
use diasoft.Pubver.Service.{verify_payload}
use diasoft.Pubver.Repository.{find_by_hash, find_university_verification_key_by_id}
use diasoft.Pubver.Repository.Removed.{verify_payload_removed}
use diasoft.Pubver.Examples.{diploma_db, as_uuid, service_on, response}

abbrev lost : HashRow
lost = record revoked_row { hash = "h0"; vuz_id = "u0"; status = active; revoked_at = none }

abbrev tables : Tables
tables = record {
  accounts = record accounts { universities = record owner { id = "u0" } ∷ accounts.universities };
  db = record diploma_db {
    universities = record institution { id = "u0" } ∷ diploma_db.universities;
    hashes = lost ∷ diploma_db.hashes;
  };
}

removed : delete_cascade surroundings "u0" tables ≡ (ok tt, erased "u0" tables)
unfolding delete_cascade delete_body delete_hashes_of delete_university_of
removed = refl

verified_after : verify_payload (service_on (erased "u0" tables).db) "a.b.c" ≡ ok response
unfolding verify_payload decode_unverified_jwt extract_outer_qr_claims_from_map extract_string_claim
    extract_int64_claim optional_string_claim verify_ed25519_jwt decode_jwt_for_verification
    parse_ed25519_public_key decrypt_encrypted_diploma_payload normalize validate validate_core
    hash_diploma_input build_raw_diploma_string find_by_hash find_university_verification_key_by_id
    trim_space split equal_fold
verified_after = refl

verify_payload_removed_example : response.hash ≢ "h0"
verify_payload_removed_example =
    verify_payload_removed surroundings tables (erased "u0" tables) "h0" lost
      (service_on (erased "u0" tables).db) false as_uuid "a.b.c" response removed refl
      (ground arith) refl verified_after refl
