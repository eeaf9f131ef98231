-- ===== src/Pubver/Domain.antt =====
-- pubver/internal/domain: the errors, the records and the responses.
use diasoft.Prelude.{ℕ, String, Option, Bool, true, false, ◌||◌, ℤ, Eq-string}

pub data Error : Type 0 where
  invalid_payload invalid_input hash_mismatch sub_mismatch record_not_found key_not_found : Error
  -- errors.New and fmt.Errorf with a text
  message : String → Error
  -- the error of a library or of the database
  foreign : Error
  -- errors.Join
  joined : Error → Error → Error

-- errors.Is for the four errors that the code asks for.
abbrev pub is_invalid_input : Error → Bool
is_invalid_input invalid_input = true
is_invalid_input (joined a b) = is_invalid_input a || is_invalid_input b
is_invalid_input _ = false

abbrev pub is_invalid_payload : Error → Bool
is_invalid_payload invalid_payload = true
is_invalid_payload (joined a b) = is_invalid_payload a || is_invalid_payload b
is_invalid_payload _ = false

abbrev pub is_record_not_found : Error → Bool
is_record_not_found record_not_found = true
is_record_not_found (joined a b) = is_record_not_found a || is_record_not_found b
is_record_not_found _ = false

abbrev pub is_key_not_found : Error → Bool
is_key_not_found key_not_found = true
is_key_not_found (joined a b) = is_key_not_found a || is_key_not_found b
is_key_not_found _ = false

-- DiplomaStatus is a text.
abbrev pub status_active : String
status_active = "active"

abbrev pub status_not_found : String
status_not_found = "not_found"

pub record DiplomaRecord : Type 0 where
  pub hash : String
  pub diploma_number : String
  pub status : String
  pub university_code : String
  pub university_name : String
  pub graduate_year : Option ℤ
  pub specialty : Option String
  pub degree : Option String
  pub faculty : Option String
  pub qr_payload : Option String
  pub revoked_at : Option ℕ

pub record VerifyResponse : Type 0 where
  pub valid : Bool
  pub status : String
  pub hash : String
  pub diploma_number : String
  pub university : String
  pub vuz_code : String
  pub year : Option ℤ
  pub specialty : Option String
  pub degree : Option String
  pub faculty : Option String
  pub revoked_at : Option ℕ

pub record SearchResponse : Type 0 where
  pub valid : Bool
  pub status : String
  pub university : String
  pub vuz_code : String
  pub year : Option ℤ
  pub specialty : Option String
  pub degree : Option String
  pub faculty : Option String
