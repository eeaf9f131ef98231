-- ===== src/Pubver/Router/Status.antt =====
-- The status codes of the endpoints.
use diasoft.Prelude.{
  String, Bool, Option, none, false, ok, err, ap, sym, ◌∙◌, is_empty, bind-ok, trim_space_twice,
  ◌≡◌, ◌⊎◌, inl, inr, true, Result-cases, trim_space, arith,
}
use diasoft.Pubver.Domain.{Error, foreign}
use diasoft.Pubver.Service.{VerificationService, verify_payload, check_token}
use diasoft.Pubver.Service.Faults.{is_refusal, verify_payload_fault, named_university}
use diasoft.Gateway.Store.{Db}
use diasoft.Pubver.Jwt.{decode_unverified_jwt}
use diasoft.Pubver.Repository.{repository, find_university_verification_key_by_id}
use diasoft.Pubver.Repository.Registry.{KeepsContract}
use diasoft.Pubver.Router.{write_error, verify}

write_error-refusal : (e : Error) → is_refusal e ≡ true → (write_error e).status ≡ 400
unfolding write_error
write_error-refusal e h = ground arith

-- With a repository that keeps its contract, every request to verify a payload ends with status 200
-- or 400, whatever the payload holds, unless its token names a university by a text that is no
-- identifier.
pub verify_status :
    (is_id : String → Bool) (v : VerificationService) (payload : String)
    → KeepsContract is_id v.repo
    → ((id : String) → named_university v (trim_space payload) ≡ ok id → is_id id ≡ true)
    → ((verify v payload).status ≡ 200) ⊎ ((verify v payload).status ≡ 400)
unfolding verify
verify_status is_id v payload contract ids =
    elim (Result-cases (verify_payload v (trim_space payload))) [
      | inl (r, done) ↦ inl (ground arith)
      | inr (e, broken) ↦ elim (verify_payload_fault v (trim_space payload) e broken) [
        | inl refused ↦ inr (ground (arith, write_error-refusal e refused))
        | inr (inl (id, named, fault, other)) ↦
            let once : named_university v (trim_space payload) ≡ ok id =
              ap (named_university v) (sym (trim_space_twice payload)) ∙ named in
            absurd (ground (arith, contract.no_key id e (ids id once) fault))
        | inr (inr (hash, fault, other)) ↦ absurd (ground (arith, contract.no_record hash e fault))
      ]
    ]

-- A token that names a university by a text that is no UUID, whoever made it, is answered as an error
-- of the server.
pub verify_not_uuid :
    (v : VerificationService) (down : Bool) (as_uuid : String → Option String) (db : Db)
    (payload id : String)
    → v.repo ≡ repository down as_uuid db
    → is_empty (trim_space payload) ≡ false
    → named_university v (trim_space payload) ≡ ok id
    → as_uuid id ≡ none
    → (verify v payload).status ≡ 500
unfolding verify write_error verify_payload check_token find_university_verification_key_by_id
verify_not_uuid v down as_uuid db payload id same given named no_uuid =
    let key : v.repo.find_university_verification_key_by_id id ≡ err foreign =
      ap (λ repo. repo.find_university_verification_key_by_id id) same ∙ ground arith in
    let (claims, read, h) = bind-ok (decode_unverified_jwt v.codec (trim_space payload)) _ named in
    ground (arith, trim_space_twice payload)
