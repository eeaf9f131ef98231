-- ===== src/Pubver/Service/Faults.antt =====
-- Where the errors of the verification service come from.
use diasoft.Prelude.{
  refl, String, ◌≡◌, guard, ◌>>=◌, ◌>>◌, ◌⊎◌, inl, inr, Bool, true, false, ◌||◌, Result, ok, err,
  map_err, Result-cases, Bool-cases, trim_space, is_empty, equal_fold, Eq-string, arith,
}
use diasoft.Pubver.Domain.{
  Error, invalid_payload, joined, is_record_not_found, is_key_not_found, is_invalid_input,
  is_invalid_payload,
}
use diasoft.Pubver.Hash.{hash_diploma_input}
use diasoft.Pubver.Jwt.{
  decode_unverified_jwt, extract_vuz_id_from_map, extract_outer_qr_claims_from_map,
  verify_ed25519_jwt,
}
use diasoft.Pubver.Enc.{hash_input, decrypt_encrypted_diploma_payload}
use diasoft.Pubver.Service.{
  VerificationService, reject, key_error, answer, check_token, verify_payload,
}

-- The errors that are the caller's: an input or a payload that is refused.
abbrev pub is_refusal : Error → Bool
is_refusal e = is_invalid_input e || is_invalid_payload e

-- The error of a chain whose first step rejects the payload: that rejection, or a later error.
module _ {A B : Type 0} {P : Type 0} (e : Error) where
  after_reject :
      (m : Result Error A) (k : A → Result Error B)
      → (reject m >>= k) ≡ err e
      → (is_refusal e ≡ true → P)
      → ((a : A) → m ≡ ok a → k a ≡ err e → P)
      → P
  after_reject (ok a) k h refused later = later a refl h
  after_reject (err e') k h refused later = refused (ground arith)

after_mismatch :
    {B : Type 0} {P : Type 0} (e : Error) (test : Bool) (why : Error) (k : Result Error B)
    → (guard test (joined invalid_payload why) >> k) ≡ err e
    → (is_refusal e ≡ true → P)
    → (k ≡ err e → P)
    → P
after_mismatch e true why k h refused later = later h
after_mismatch e false why k h refused later = refused (ground arith)

-- The university that a token names.
abbrev pub named_university : VerificationService → String → Result Error String
named_university v token = decode_unverified_jwt v.codec token >>= extract_vuz_id_from_map

-- What an error of `check_token` comes from.
abbrev TokenFault : VerificationService → String → Error → Type 0
TokenFault v token e =
    (is_refusal e ≡ true)
    ⊎ ((id : String) × (named_university v token ≡ ok id)
        × (v.repo.find_university_verification_key_by_id id ≡ err e)
        × (is_key_not_found e ≡ false))

after_key :
    {B : Type 0} (v : VerificationService) (token : String) (e : Error) (id : String)
    (k : String → Result Error B)
    → named_university v token ≡ ok id
    → (map_err key_error (v.repo.find_university_verification_key_by_id id) >>= k) ≡ err e
    → ((key : String) → k key ≡ err e → TokenFault v token e)
    → TokenFault v token e
after_key v token e id k named h later =
    elim (Result-cases (v.repo.find_university_verification_key_by_id id)) [
      | inl (key, known) ↦ later key (ground arith)
      | inr (e', broken) ↦ elim (Bool-cases (is_key_not_found e')) [
        | inl unknown ↦ inl (ground arith)
        | inr other ↦ inr (id, named, ground arith, ground arith)
      ]
    ]

check_token-TokenFault :
    (v : VerificationService) (token : String) (e : Error)
    → check_token v token ≡ err e
    → TokenFault v token e
unfolding check_token
check_token-TokenFault v token e h =
    after_reject e (decode_unverified_jwt v.codec token) _ h inl λ claims read h1.
      after_reject e (extract_vuz_id_from_map claims) _ h1 inl λ vuz_id named h2.
        after_key v token e vuz_id _ (ground arith) h2 λ key h3.
          after_reject e (verify_ed25519_jwt v.codec token key) _ h3 inl λ _ _ h4.
            after_reject e (extract_outer_qr_claims_from_map claims) _ h4 inl λ outer _ h5.
              after_reject e
                (decrypt_encrypted_diploma_payload v.codec v.opener outer.enc v.enc_key) _ h5 inl
                λ p _ h6.
                  after_reject e (hash_diploma_input v.sum (hash_input p outer.vuz_id)) _ h6 inl
                    λ hash _ h7.
                      after_mismatch e (equal_fold outer.diploma_hash hash) _ _ h7 inl λ h8.
                        after_mismatch e (equal_fold outer.sub hash) _ _ h8 inl
                          λ h9. absurd (ground arith)

-- Verifying fails either by refusing what the caller sent, or with an error of the repository, for the
-- university that the token names or for a hash, that is not the documented one.
pub verify_payload_fault :
    (v : VerificationService) (raw : String) (e : Error)
    → verify_payload v raw ≡ err e
    → (is_refusal e ≡ true)
      ⊎ ((id : String) × (named_university v (trim_space raw) ≡ ok id)
          × (v.repo.find_university_verification_key_by_id id ≡ err e)
          × (is_key_not_found e ≡ false))
      ⊎ ((hash : String) × (v.repo.find_by_hash hash ≡ err e) × (is_record_not_found e ≡ false))
unfolding verify_payload answer
verify_payload_fault v raw e h = elim (Bool-cases (is_empty (trim_space raw))) [
  | inl nothing ↦ inl (ground arith)
  | inr given ↦ elim (Result-cases (check_token v (trim_space raw))) [
    | inr (e', broken) ↦ elim (check_token-TokenFault v (trim_space raw) e (ground arith)) [
      | inl refused ↦ inl refused
      | inr fault ↦ inr (inl fault)
    ]
    | inl ((hash, payload), checked) ↦ elim (Result-cases (v.repo.find_by_hash hash)) [
      | inl (d, found) ↦ absurd (ground arith)
      | inr (e', broken) ↦ elim (Bool-cases (is_record_not_found e')) [
        | inl gone ↦ absurd (ground arith)
        | inr other ↦ inr (inr (hash, ground arith, ground arith))
      ]
    ]
  ]
]
