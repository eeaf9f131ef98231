-- ===== src/Pubver/Examples/Status.antt =====
-- The theorems on the status codes of pubver's verification.
use diasoft.Prelude.{
  ap, is_some, arith, false, Eq-nat, ◌≡◌, ◌⊎◌, refl, String, some, true, false, ok, split,
  trim_space, is_empty, Eq-string,
}
use diasoft.Gateway.Store.{Db}
use diasoft.Pubver.Jwt.{
  Codec, text, decode_unverified_jwt, extract_vuz_id_from_map, extract_string_claim,
}
use diasoft.Pubver.Service.{VerificationService}
use diasoft.Pubver.Service.Faults.{named_university}
use diasoft.Pubver.Repository.Registry.{repository-KeepsContract}
use diasoft.Pubver.Router.{verify}
use diasoft.Pubver.Router.Status.{verify_status, verify_not_uuid}
use diasoft.Pubver.Examples.{codec, diploma_db, as_uuid, service_on}

named_u1 : named_university (service_on diploma_db) (trim_space "a.b.c") ≡ ok "u1"
unfolding decode_unverified_jwt extract_vuz_id_from_map extract_string_claim split trim_space
named_u1 = refl

names_u1 :
    (id : String)
    → named_university (service_on diploma_db) (trim_space "a.b.c") ≡ ok id
    → is_some (as_uuid id) ≡ true
names_u1 id named =
    let same : id ≡ "u1" = ground (arith, named_u1) in ap (λ i. is_some (as_uuid i)) same

-- The same service, and tokens that name a university by a text that is no identifier.
abbrev foreign_codec : Codec
foreign_codec = record codec { json_claims = λ bytes. some (λ name. some (text "v1")) }

abbrev foreign_service : Db → VerificationService
foreign_service db = record (service_on db) { codec = foreign_codec }

verify_status_example :
    ((verify (service_on diploma_db) "a.b.c").status ≡ 200)
    ⊎ ((verify (service_on diploma_db) "a.b.c").status ≡ 400)
verify_status_example =
    verify_status (λ id. is_some (as_uuid id)) (service_on diploma_db) "a.b.c"
      (repository-KeepsContract as_uuid diploma_db) names_u1

named_v1 : named_university (foreign_service diploma_db) "a.b.c" ≡ ok "v1"
unfolding decode_unverified_jwt extract_vuz_id_from_map split trim_space
named_v1 = refl

given_text : is_empty (trim_space "a.b.c") ≡ false
unfolding trim_space
given_text = refl

named_after_trim : named_university (foreign_service diploma_db) (trim_space "a.b.c") ≡ ok "v1"
unfolding trim_space
named_after_trim = named_v1

verify_not_uuid_example : (verify (foreign_service diploma_db) "a.b.c").status ≡ 500
verify_not_uuid_example =
    verify_not_uuid (foreign_service diploma_db) false as_uuid diploma_db "a.b.c" "v1" refl
      given_text named_after_trim refl
