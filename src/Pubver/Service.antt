-- ===== src/Pubver/Service.antt =====
-- pubver/internal/service/verification_service.go: verifying the token of a diploma, and searching
-- the registry.
pub mod Outcome
pub mod Faults
pub mod Filling
use diasoft.Prelude.{
  String, Option, none, some, Bool, true, false, not, ◌&&◌, ◌||◌, Result, ok, err, ◌>>=◌, ◌>>◌,
  guard, map_err, ℤ, is_nonzero, trim_space, blank, is_empty, equal_fold, is_some, ◌==◌, Eq-string,
  if◌then◌else◌,
}
use diasoft.Pubver.Domain.{
  Error, invalid_payload, invalid_input, hash_mismatch, sub_mismatch, joined, is_record_not_found,
  is_key_not_found, status_active, status_not_found, DiplomaRecord, VerifyResponse, SearchResponse,
}
use diasoft.Pubver.Hash.{hash_diploma_input}
use diasoft.Pubver.Jwt.{
  Bytes, Codec, OuterQrClaims, decode_unverified_jwt, extract_vuz_id_from_map,
  extract_outer_qr_claims_from_map, extract_outer_qr_claims, verify_ed25519_jwt,
}
use diasoft.Pubver.Enc.{EncPayload, Opener, hash_input, decrypt_encrypted_diploma_payload}

-- pubver/internal/repository/repository.go
pub record VerificationRepository : Type 0 where
  pub find_by_hash : String → Result Error DiplomaRecord
  pub find_by_diploma_number : String → String → Result Error DiplomaRecord
  pub find_university_verification_key_by_id : String → Result Error String

-- The service with the packages it calls. `sum` is SHA-256 in hexadecimal.
pub record VerificationService : Type 0 where
  pub repo : VerificationRepository
  pub enc_key : Bytes
  pub codec : Codec
  pub opener : Opener
  pub sum : String → String

-- errors.Join(domain.ErrInvalidPayload, err)
abbrev pub reject : {A : Type 0} → Result Error A → Result Error A
reject r = map_err (joined invalid_payload) r

-- A university without a key makes the payload invalid; other errors pass.
abbrev pub key_error : Error → Error
key_error e = if is_key_not_found e then invalid_payload else e

-- What a field that is not set takes from the payload.
abbrev or_text : Option String → String → Option String
or_text (some s) value = some s
or_text none value = if blank value then none else some value

abbrev or_year : Option ℤ → ℤ → Option ℤ
or_year (some y) value = some y
or_year none value = if is_nonzero value then some value else none

unfoldable pub apply_encrypted_payload : DiplomaRecord → EncPayload → DiplomaRecord
apply_encrypted_payload r p = record r {
  diploma_number = if blank r.diploma_number then p.diploma_number else r.diploma_number;
  graduate_year = or_year r.graduate_year p.year;
  specialty = or_text r.specialty p.specialty;
  degree = or_text r.degree p.degree;
  faculty = or_text r.faculty p.faculty;
}

abbrev pub to_verify_response : DiplomaRecord → VerifyResponse
to_verify_response r = record {
  valid = r.status == status_active;
  status = r.status;
  hash = r.hash;
  diploma_number = r.diploma_number;
  university = r.university_name;
  vuz_code = r.university_code;
  year = r.graduate_year;
  specialty = r.specialty;
  degree = r.degree;
  faculty = r.faculty;
  revoked_at = r.revoked_at;
}

abbrev pub not_registered : String → VerifyResponse
not_registered hash = record {
  valid = false;
  status = status_not_found;
  hash = hash;
  diploma_number = "";
  university = "";
  vuz_code = "";
  year = none;
  specialty = none;
  degree = none;
  faculty = none;
  revoked_at = none;
}

-- The answer of `VerifyPayload`, from what the registry holds under the hash.
unfoldable pub answer :
    String → EncPayload → Result Error DiplomaRecord → Result Error VerifyResponse
unfolding apply_encrypted_payload
answer hash payload (ok r) = ok (to_verify_response (apply_encrypted_payload r payload))
answer hash payload (err e) = if is_record_not_found e then ok (not_registered hash) else err e

-- `VerifyPayload` from the token, trimmed and with something in it, to the hash that it vouches for.
unfoldable pub check_token : VerificationService → String → Result Error (String × EncPayload)
check_token v token = do
  claims ← reject (decode_unverified_jwt v.codec token)
  vuz_id ← reject (extract_vuz_id_from_map claims)
  key ← map_err key_error (v.repo.find_university_verification_key_by_id vuz_id)
  reject (verify_ed25519_jwt v.codec token key)
  outer ← reject (extract_outer_qr_claims_from_map claims)
  payload ← reject (decrypt_encrypted_diploma_payload v.codec v.opener outer.enc v.enc_key)
  hash ← reject (hash_diploma_input v.sum (hash_input payload outer.vuz_id))
  guard (equal_fold outer.diploma_hash hash) (joined invalid_payload hash_mismatch)
  guard (equal_fold outer.sub hash) (joined invalid_payload sub_mismatch)
  ok (hash, payload)

unfoldable pub verify_payload : VerificationService → String → Result Error VerifyResponse
unfolding check_token answer
verify_payload v raw =
    let token = trim_space raw in
    do
      guard (not (is_empty token)) invalid_input
      (hash, payload) ← check_token v token
      answer hash payload (v.repo.find_by_hash hash)

abbrev has_all : DiplomaRecord → Bool
has_all r = is_some r.graduate_year && is_some r.specialty && is_some r.degree && is_some r.faculty

abbrev stored_qr : DiplomaRecord → Option String
stored_qr r = elim r.qr_payload [
  | none ↦ none
  | some s ↦ if blank s || has_all r then none else some s
]

unfoldable pub enrich_record_from_stored_qr :
    VerificationService → DiplomaRecord → Result Error DiplomaRecord
unfolding apply_encrypted_payload
enrich_record_from_stored_qr v r = elim (stored_qr r) [
  | none ↦ ok r
  | some qr ↦ do
    outer ← extract_outer_qr_claims v.codec qr
    payload ← decrypt_encrypted_diploma_payload v.codec v.opener outer.enc v.enc_key
    ok (apply_encrypted_payload r payload)
]

abbrev pub to_search_response : DiplomaRecord → SearchResponse
to_search_response r = record {
  valid = r.status == status_active;
  status = r.status;
  university = r.university_name;
  vuz_code = r.university_code;
  year = r.graduate_year;
  specialty = r.specialty;
  degree = r.degree;
  faculty = r.faculty;
}

abbrev pub nothing_found : SearchResponse
nothing_found = record {
  valid = false;
  status = status_not_found;
  university = "";
  vuz_code = "";
  year = none;
  specialty = none;
  degree = none;
  faculty = none;
}

abbrev search_answer :
    VerificationService → Result Error DiplomaRecord → Result Error SearchResponse
search_answer v (ok r) = do r' ← enrich_record_from_stored_qr v r; ok (to_search_response r')
search_answer v (err e) = if is_record_not_found e then ok nothing_found else err e

unfoldable pub search : VerificationService → String → String → Result Error SearchResponse
unfolding enrich_record_from_stored_qr
search v vuz_code diploma_number = do
  guard (not (blank vuz_code || blank diploma_number)) invalid_input
  search_answer v (v.repo.find_by_diploma_number (trim_space vuz_code) (trim_space diploma_number))
