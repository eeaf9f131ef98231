-- ===== src/Pubver/Service/Outcome.antt =====
-- What an answer of the verification service means.
use diasoft.Prelude.{
  String, ◌≡◌, ◌↔◌, refl, true, false, not, Result, ok, err, bind-ok, bind_map_err-ok,
  bind_guard-ok, trim_space, is_empty, equal_fold, Eq-string, arith, eq_iff,
}
use diasoft.Pubver.Domain.{
  Error, invalid_payload, joined, status_active, DiplomaRecord, VerifyResponse,
}
use diasoft.Pubver.Hash.{hash_diploma_input}
use diasoft.Pubver.Jwt.{
  Claims, OuterQrClaims, decode_unverified_jwt, extract_vuz_id_from_map,
  extract_outer_qr_claims_from_map, extract_outer_qr_claims, verify_ed25519_jwt,
}
use diasoft.Pubver.Enc.{EncPayload, hash_input, decrypt_encrypted_diploma_payload}
use diasoft.Pubver.Service.{
  VerificationService, key_error, apply_encrypted_payload, to_verify_response, answer, check_token,
  verify_payload,
}

-- A token vouches for the diploma with this hash and payload: the university that it names has
-- signed it, and its claims carry the hash of the payload that it encloses.
pub record Vouches (v : VerificationService) (token hash : String) (payload : EncPayload)
    : Type 0 where
  pub outer : OuterQrClaims
  pub key : String
  pub reads : extract_outer_qr_claims v.codec token ≡ ok outer
  pub knows : v.repo.find_university_verification_key_by_id outer.vuz_id ≡ ok key
  pub signed : verify_ed25519_jwt v.codec token key ≡ ok tt
  pub encloses : decrypt_encrypted_diploma_payload v.codec v.opener outer.enc v.enc_key ≡ ok payload
  pub hashes : hash_diploma_input v.sum (hash_input payload outer.vuz_id) ≡ ok hash
  pub names_hash : equal_fold outer.diploma_hash hash ≡ true
  pub names_sub : equal_fold outer.sub hash ≡ true

outer-vuz_id :
    (claims : Claims) (outer : OuterQrClaims)
    → extract_outer_qr_claims_from_map claims ≡ ok outer
    → extract_vuz_id_from_map claims ≡ ok outer.vuz_id
unfolding extract_outer_qr_claims_from_map
outer-vuz_id claims outer h = ground arith

check_token-Vouches :
    (v : VerificationService) (token hash : String) (payload : EncPayload)
    → check_token v token ≡ ok (hash, payload)
    → Vouches v token hash payload
unfolding check_token extract_outer_qr_claims
check_token-Vouches v token hash payload h =
    let wrap = joined invalid_payload in
    let (claims, decoded, h1) = bind_map_err-ok wrap (decode_unverified_jwt v.codec token) _ h in
    let (vuz_id, named, h2) = bind_map_err-ok wrap (extract_vuz_id_from_map claims) _ h1 in
    let (key, known, h3) =
      bind_map_err-ok key_error (v.repo.find_university_verification_key_by_id vuz_id) _ h2 in
    let (_, verified, h4) = bind_map_err-ok wrap (verify_ed25519_jwt v.codec token key) _ h3 in
    let (outer, read, h5) = bind_map_err-ok wrap (extract_outer_qr_claims_from_map claims) _ h4 in
    let (p, opened, h6) =
      bind_map_err-ok wrap (decrypt_encrypted_diploma_payload v.codec v.opener outer.enc v.enc_key)
        _ h5 in
    let (sum, hashed, h7) =
      bind_map_err-ok wrap (hash_diploma_input v.sum (hash_input p outer.vuz_id)) _ h6 in
    let (same_hash, h8) = bind_guard-ok (equal_fold outer.diploma_hash sum) _ _ h7 in
    let (same_sub, h9) = bind_guard-ok (equal_fold outer.sub sum) _ _ h8 in
    let same_id = outer-vuz_id claims outer read in
    record {
      outer = outer;
      key = key;
      reads = ground arith;
      knows = ground arith;
      signed = verified;
      encloses = ground arith;
      hashes = ground arith;
      names_hash = ground arith;
      names_sub = ground arith;
    }

Vouches-check_token :
    (v : VerificationService) (token hash : String) (payload : EncPayload)
    → Vouches v token hash payload
    → check_token v token ≡ ok (hash, payload)
unfolding check_token extract_outer_qr_claims
Vouches-check_token v token hash payload w =
    let (claims, decoded, read) =
      bind-ok (decode_unverified_jwt v.codec token) extract_outer_qr_claims_from_map w.reads in
    let same_id = outer-vuz_id claims w.outer read in
    ground (arith, w.knows, w.signed, w.encloses, w.hashes, w.names_hash, w.names_sub)

given_text : (s : String) → not (is_empty s) ≡ true → is_empty s ≡ false
given_text s h = ground arith

-- The service answers for a token, whatever spaces surround it, exactly where it vouches for some
-- diploma and the registry answers for that diploma's hash: it gives that answer.
pub verify_payload-Vouches :
    (v : VerificationService) (raw : String) (r : VerifyResponse)
    → (verify_payload v raw ≡ ok r)
      ↔ (is_empty (trim_space raw) ≡ false)
        × (hash : String) × (payload : EncPayload) × Vouches v (trim_space raw) hash payload
        × (answer hash payload (v.repo.find_by_hash hash) ≡ ok r)
unfolding verify_payload
verify_payload-Vouches v raw r = (
  λ h.
      let (given, h1) = bind_guard-ok _ _ _ h in
      let ((hash, payload), checked, h2) = bind-ok (check_token v (trim_space raw)) _ h1 in
      (
        given_text (trim_space raw) given,
        hash,
        payload,
        check_token-Vouches v (trim_space raw) hash payload checked,
        h2,
      ),
  λ (given, hash, payload, w, answered).
      ground (arith, Vouches-check_token v (trim_space raw) hash payload w),
)

answer-valid :
    (hash : String) (payload : EncPayload) (found : Result Error DiplomaRecord) (r : VerifyResponse)
    → answer hash payload found ≡ ok r
    → r.valid ≡ true
    → (d : DiplomaRecord) × (found ≡ ok d)
      × (d.status ≡ status_active)
      × (r ≡ to_verify_response (apply_encrypted_payload d payload))
unfolding answer apply_encrypted_payload
answer-valid hash payload (ok d) r h valid =
    (d, refl, ground (arith, eq_iff d.status status_active), ground arith)
answer-valid hash payload (err e) r h valid = absurd (ground arith)

-- A diploma is reported as valid only if the university that its token names has signed the token,
-- the token encloses data whose hash it names, and the registry holds that hash as active.
pub verify_payload-valid :
    (v : VerificationService) (raw : String) (r : VerifyResponse)
    → verify_payload v raw ≡ ok r
    → r.valid ≡ true
    → (hash : String) × (payload : EncPayload) × Vouches v (trim_space raw) hash payload
      × (d : DiplomaRecord) × (v.repo.find_by_hash hash ≡ ok d)
      × (d.status ≡ status_active)
      × (r ≡ to_verify_response (apply_encrypted_payload d payload))
verify_payload-valid v raw r h valid =
    let (_, hash, payload, w, answered) = (verify_payload-Vouches v raw r).0 h in
    let (d, found, active, same) =
      answer-valid hash payload (v.repo.find_by_hash hash) r answered valid in
    (hash, payload, w, d, found, active, same)
