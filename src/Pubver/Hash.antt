-- ===== src/Pubver/Hash.antt =====
-- pubver/pkg/verifyhash/hash.go: the text whose SHA-256 identifies a diploma.
pub mod Raw
use Prim.Native.Char.{Char}
use Prim.Native.String
use diasoft.Prelude.{
  ℕ, zero, suc, ◌+◌, ◌/◌, ◌%◌, String, Result, itoa, ok, err, ◌>>=◌, List, [], ◌∷◌, ℤ, pos, negsuc,
  is_positive, not, trim_space, blank, join, guard, ◌>>◌, if◌then◌else◌, ltb,
}
use diasoft.Pubver.Domain.{Error, message}

pub record HashInput : Type 0 where
  pub full_name : String
  pub diploma_number : String
  pub specialty : String
  pub degree : String
  pub faculty : String
  pub year : ℤ
  pub vuz_id : String
  pub salt : String

unfoldable pub validate_core : String → String → String → ℤ → Result Error Unit
validate_core full_name diploma_number specialty year = do
  guard (not (blank full_name)) (message "full_name must not be empty")
  guard (not (blank diploma_number)) (message "diploma_number must not be empty")
  guard (not (blank specialty)) (message "specialty must not be empty")
  guard (is_positive year) (message "year must be a positive integer")

unfoldable pub validate : HashInput → Result Error Unit
unfolding validate_core
validate i = do
  validate_core i.full_name i.diploma_number i.specialty i.year
  guard (not (blank i.vuz_id)) (message "vuz_id must not be empty")
  guard (not (blank i.salt)) (message "salt must not be empty")

abbrev pub parts : HashInput → List String
parts i =
    trim_space i.diploma_number
    ∷ trim_space i.full_name
    ∷ trim_space i.specialty
    ∷ trim_space i.degree
    ∷ trim_space i.faculty
    ∷ itoa i.year
    ∷ trim_space i.vuz_id
    ∷ trim_space i.salt
    ∷ []

abbrev pub pipe : Char
pipe = "|"

unfoldable pub build_raw_diploma_string : HashInput → Result Error String
unfolding validate
build_raw_diploma_string i = do validate i; ok (join pipe (parts i))

-- `sum` is SHA-256 in hexadecimal.
unfoldable pub hash_diploma_input : (String → String) → HashInput → Result Error String
unfolding build_raw_diploma_string
hash_diploma_input sum i = do raw ← build_raw_diploma_string i; ok (sum raw)
