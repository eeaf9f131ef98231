-- ===== src/Pubver/Examples/Texts.antt =====
-- The theorems on tokens and raw texts.
use diasoft.Prelude.{
  itoa, Eq-nat, ◌≡◌, refl, String, ok, pos, join, split, trim_space, Eq-string, is_free,
}
use diasoft.Pubver.Hash.{HashInput, validate_core, build_raw_diploma_string}
use diasoft.Pubver.Hash.Raw.{HasNoBar, Agrees, build_raw-injective}
use diasoft.Pubver.Jwt.{decode_jwt_for_verification, parse_ed25519_public_key, verify_ed25519_jwt}
use diasoft.Pubver.Jwt.Segments.{IsSigned, verify_ed25519_jwt-IsSigned}
use diasoft.Pubver.Examples.{codec}

signed : verify_ed25519_jwt codec "a.b.c" "key" ≡ ok tt
unfolding verify_ed25519_jwt decode_jwt_for_verification parse_ed25519_public_key trim_space split
signed = refl

verify_ed25519_jwt-IsSigned_example : IsSigned codec "a.b.c" "key"
verify_ed25519_jwt-IsSigned_example = verify_ed25519_jwt-IsSigned codec "a.b.c" "key" signed

abbrev input : HashInput
input = record {
  full_name = "Ada";
  diploma_number = "D-1";
  specialty = "Maths";
  degree = "BSc";
  faculty = "";
  year = pos 2020;
  vuz_id = "u1";
  salt = "salt";
}

abbrev spaced : HashInput
spaced = record input { full_name = " Ada " }

abbrev raw : String
raw = "D-1|Ada|Maths|BSc||2020|u1|salt"

raw_of : build_raw_diploma_string input ≡ ok raw
unfolding build_raw_diploma_string validate_core itoa join trim_space
raw_of = refl

raw_of_spaced : build_raw_diploma_string spaced ≡ ok raw
unfolding build_raw_diploma_string validate_core itoa join trim_space
raw_of_spaced = refl

input-HasNoBar : HasNoBar input
unfolding itoa is_free trim_space
input-HasNoBar = record {
  diploma_number = refl;
  full_name = refl;
  specialty = refl;
  degree = refl;
  faculty = refl;
  year = refl;
  vuz_id = refl;
  salt = refl;
}

spaced-HasNoBar : HasNoBar spaced
unfolding itoa is_free trim_space
spaced-HasNoBar = record {
  diploma_number = refl;
  full_name = refl;
  specialty = refl;
  degree = refl;
  faculty = refl;
  year = refl;
  vuz_id = refl;
  salt = refl;
}

build_raw-injective_example : Agrees input spaced
build_raw-injective_example =
    build_raw-injective input spaced raw input-HasNoBar spaced-HasNoBar raw_of raw_of_spaced
