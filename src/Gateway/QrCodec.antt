-- ===== src/Gateway/QrCodec.antt =====
-- gateway-service/internal/infrastructure/security/qr_payload_codec.go: the codec of the payloads in
-- QR codes.
pub mod Round
use diasoft.Prelude.{
  ℕ, String, Option, none, some, List, [], ◌∷◌, Bool, true, false, not, ◌&&◌, Result, ok, err,
  ◌>>=◌, ◌>>◌, guard, ℤ, pos, parse_int64, trim_space, blank, is_empty, if◌then◌else◌,
}
use diasoft.Gateway.Model.{Error, message, ParsedQr}
use diasoft.Gateway.Sealing.{Bytes, Suite, given, seal_bytes, open_bytes}

pub record QrClaims : Type 0 where
  pub full_name : String
  pub student_name : String
  pub diploma_number : String
  pub specialty : String
  pub degree : String
  pub faculty : String
  pub year : ℤ
  pub salt : String

-- A value of jwt.MapClaims. Of a float64 the model keeps what int64(v) gives.
pub data Value : Type 0 where
  text : String → Value
  number : String → Value
  float64 : ℤ → Value
  int : ℤ → Value
  int64 : ℤ → Value
  other : Value

-- The packages: JSON at the claims, and golang-jwt's ParseUnverified.
pub record Reader : Type 0 where
  pub marshal : QrClaims → Bytes
  pub unmarshal : Bytes → Option QrClaims
  pub parse_unverified : String → Option (String → Option Value)

pub record QrEnvelope : Type 0 where
  pub subject : String
  pub diploma_hash : String
  pub vuz_id : String
  pub enc : String
  pub issued_at : ℤ

-- The two cases of `normalized`, for names that are trimmed.
abbrev fill_names : QrClaims → QrClaims
fill_names c =
    if is_empty c.full_name && not (is_empty c.student_name)
    then record c { full_name = c.student_name }
    else if is_empty c.student_name && not (is_empty c.full_name)
    then record c { student_name = c.full_name }
    else c

unfoldable pub normalized : QrClaims → QrClaims
normalized c =
    fill_names
      (record c { full_name = trim_space c.full_name; student_name = trim_space c.student_name })

-- QRPayloadCodec.Seal and QRPayloadCodec.Open
unfoldable pub seal : Suite → Reader → Bytes → Option Bytes → QrClaims → Result Error String
seal s r key random claims = do
  sealed ← seal_bytes s key random (r.marshal (normalized claims))
  ok (s.encode_base64 sealed)

unfoldable pub opened : Suite → Reader → Bytes → String → Result Error QrClaims
opened s r key value = do
  raw ← given (s.decode_base64 (trim_space value)) "illegal base64 data"
  plaintext ← open_bytes s key "encrypted qr payload is too short" raw
  claims ← given (r.unmarshal plaintext) "json"
  ok (normalized claims)

abbrev claim_string : Option Value → String
claim_string (some (text s)) = s
claim_string _ = ""

-- The number of `claimInt64`, or 0 where it gives an error.
abbrev issued_or_zero : Option ℤ → ℤ
issued_or_zero (some n) = n
issued_or_zero none = pos 0

claim_int64 : Option Value → Option ℤ
claim_int64 (some (text s)) = parse_int64 s
claim_int64 (some (number s)) = parse_int64 s
claim_int64 (some (float64 n)) = some n
claim_int64 (some (int n)) = some n
claim_int64 (some (int64 n)) = some n
claim_int64 _ = none

abbrev or_subject : String → String → String
or_subject diploma_hash subject = if blank diploma_hash then subject else diploma_hash

unfoldable pub parse_unverified_envelope : Reader → String → Result Error QrEnvelope
unfolding claim_int64
parse_unverified_envelope r token = do
  guard (not (blank token)) (message "qr payload is empty")
  claims ← given (r.parse_unverified token) "token is malformed"
  ok (record {
    subject = claim_string (claims "sub");
    diploma_hash = or_subject (claim_string (claims "diploma_hash")) (claim_string (claims "sub"));
    vuz_id = claim_string (claims "vuz_id");
    enc = claim_string (claims "enc");
    issued_at = issued_or_zero (claim_int64 (claims "iat"));
  })

abbrev parsed_qr : QrEnvelope → QrClaims → ParsedQr
parsed_qr e c = record {
  diploma_hash = e.diploma_hash;
  vuz_id = e.vuz_id;
  issued_at = e.issued_at;
  full_name = c.full_name;
  student_name = c.student_name;
  diploma_number = c.diploma_number;
  specialty = c.specialty;
  degree = c.degree;
  faculty = c.faculty;
  year = c.year;
  salt = c.salt;
}

-- QRPayloadCodec.Parse, which is the decoder that the repository gets.
unfoldable pub parse : Suite → Reader → Bytes → String → Result Error ParsedQr
parse s r key token = do
  envelope ← parse_unverified_envelope r token
  guard (not (blank envelope.enc)) (message "qr payload does not contain enc claim")
  claims ← opened s r key envelope.enc
  ok (parsed_qr envelope claims)
