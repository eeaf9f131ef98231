-- ===== src/Pubver/Service/Filling.antt =====
-- What the data of a payload adds to a record of the registry.
use diasoft.Prelude.{
  String, ◌≡◌, refl, inl, inr, Option, some, true, false, ok, not, ◌||◌, ◌>>=◌, sym, Option-cases,
  Result-cases, blank, trim_space, bind-ok, bind_guard-ok, Eq-string, eq_iff, arith,
}
use diasoft.Pubver.Domain.{invalid_input, DiplomaRecord, SearchResponse, status_active}
use diasoft.Pubver.Enc.{EncPayload, decrypt_encrypted_diploma_payload}
use diasoft.Pubver.Jwt.{extract_outer_qr_claims}
use diasoft.Pubver.Service.{
  VerificationService, apply_encrypted_payload, enrich_record_from_stored_qr, stored_qr,
  search_answer, search, to_search_response,
}

-- A field that is set stays as it is.
abbrev Stays : {A : Type 0} → Option A → Option A → Type 0
Stays {A} before after = (a : A) → before ≡ some a → after ≡ some a

-- The second record is the first one with fields filled in that were not set.
pub record Fills (r r' : DiplomaRecord) : Type 0 where
  pub hash : r'.hash ≡ r.hash
  pub status : r'.status ≡ r.status
  pub university : r'.university_name ≡ r.university_name
  pub code : r'.university_code ≡ r.university_code
  pub revoked_at : r'.revoked_at ≡ r.revoked_at
  pub number : blank r.diploma_number ≡ false → r'.diploma_number ≡ r.diploma_number
  pub year : Stays r.graduate_year r'.graduate_year
  pub specialty : Stays r.specialty r'.specialty
  pub degree : Stays r.degree r'.degree
  pub faculty : Stays r.faculty r'.faculty

apply_encrypted_payload-Fills :
    (r : DiplomaRecord) (p : EncPayload) → Fills r (apply_encrypted_payload r p)
unfolding apply_encrypted_payload
apply_encrypted_payload-Fills r p = record {
  hash = refl;
  status = refl;
  university = refl;
  code = refl;
  revoked_at = refl;
  number = λ given. ground arith;
  year = λ a set. ground arith;
  specialty = λ a set. ground arith;
  degree = λ a set. ground arith;
  faculty = λ a set. ground arith;
}

-- Filling in a record from a payload twice changes nothing the second time.
pub apply_encrypted_payload_twice :
    (r : DiplomaRecord) (p : EncPayload)
    → apply_encrypted_payload (apply_encrypted_payload r p) p ≡ apply_encrypted_payload r p
unfolding apply_encrypted_payload
apply_encrypted_payload_twice r p = ground arith

Fills-refl : (r : DiplomaRecord) → Fills r r
Fills-refl r = record {
  hash = refl;
  status = refl;
  university = refl;
  code = refl;
  revoked_at = refl;
  number = λ given. refl;
  year = λ a set. set;
  specialty = λ a set. set;
  degree = λ a set. set;
  faculty = λ a set. set;
}

enrich_record-Fills :
    (v : VerificationService) (r r' : DiplomaRecord)
    → enrich_record_from_stored_qr v r ≡ ok r'
    → Fills r r'
unfolding enrich_record_from_stored_qr
enrich_record-Fills v r r' h = elim (Option-cases (stored_qr r)) [
  | inl nothing ↦ let same : r' ≡ r = ground arith in rw same (Fills-refl r)
  | inr (qr, stored) ↦
      let h0 : (extract_outer_qr_claims v.codec qr >>= λ outer.
      decrypt_encrypted_diploma_payload v.codec v.opener outer.enc v.enc_key >>= λ p.
      ok (apply_encrypted_payload r p))
          ≡ ok r' =
        ground arith in
      let (outer, read, h1) = bind-ok (extract_outer_qr_claims v.codec qr) _ h0 in
      let (p, opened, h2) =
        bind-ok (decrypt_encrypted_diploma_payload v.codec v.opener outer.enc v.enc_key) _ h1 in
      let same : r' ≡ apply_encrypted_payload r p = ground arith in
      rw same (apply_encrypted_payload-Fills r p)
]

-- A search finds a diploma as valid only if the registry holds it, under the trimmed code and number,
-- as active; what the answer adds to the record stands in fields that the record leaves open.
pub search-valid :
    (v : VerificationService) (vuz_code diploma_number : String) (r : SearchResponse)
    → search v vuz_code diploma_number ≡ ok r
    → r.valid ≡ true
    → (d : DiplomaRecord) × (d' : DiplomaRecord) × (v.repo.find_by_diploma_number
          (trim_space vuz_code)
          (trim_space diploma_number)
        ≡ ok d)
      × (d.status ≡ status_active)
      × Fills d d'
      × (r ≡ to_search_response d')
unfolding search
search-valid v vuz_code diploma_number r h valid =
    let found = v.repo.find_by_diploma_number (trim_space vuz_code) (trim_space diploma_number) in
    let given =
      (bind_guard-ok (not (blank vuz_code || blank diploma_number)) invalid_input
        (search_answer v found) h).0 in
    elim (Result-cases
      (v.repo.find_by_diploma_number (trim_space vuz_code) (trim_space diploma_number))) [
        | inr (e, broken) ↦ absurd (ground arith)
        | inl (d, found) ↦
            let h2 : search_answer v (ok d) ≡ ok r = ground arith in
            let (d', enriched, h3) = bind-ok (enrich_record_from_stored_qr v d) _ h2 in
            let fills = enrich_record-Fills v d d' enriched in
            let same : to_search_response d' ≡ r = ground arith in
            (
              d,
              d',
              found,
              ground (arith, fills.status, eq_iff d'.status status_active),
              fills,
              sym same,
            )
      ]
