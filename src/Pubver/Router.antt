-- ===== src/Pubver/Router.antt =====
-- pubver/internal/httpapi/router.go: the two endpoints of the verification service.
pub mod Status
use diasoft.Prelude.{ℕ, String, Option, Result, ok, err, trim_space, if◌then◌else◌}
use diasoft.Pubver.Domain.{
  Error, is_invalid_input, is_invalid_payload, VerifyResponse, SearchResponse,
}
use diasoft.Pubver.Service.{VerificationService, verify_payload, search}

-- The body of a response; of the text that goes with an invalid input, only that it is the error's.
pub data Body : Type 0 where
  verified : VerifyResponse → Body
  searched : SearchResponse → Body
  error_text : String → Body
  error_of : Error → Body

pub record Response : Type 0 where
  pub status : ℕ
  pub body : Body

abbrev respond : ℕ → Body → Response
respond status body = record { status = status; body = body }

-- The cases of `writeError` in their order.
unfoldable pub write_error : Error → Response
write_error e =
    if is_invalid_input e
    then respond 400 (error_of e)
    else if is_invalid_payload e
    then respond 400 (error_text "invalid verification payload")
    else respond 500 (error_text "internal server error")

abbrev write : {A : Type 0} → (A → Body) → Result Error A → Response
write body (ok a) = respond 200 (body a)
write body (err e) = write_error e

-- The handler, on the query parameter `payload`.
unfoldable pub verify : VerificationService → String → Response
unfolding write_error
verify v payload = write verified (verify_payload v (trim_space payload))

-- The handler, on the query parameters `vuz_code` and `diploma_number`.
unfoldable pub search_route : VerificationService → String → String → Response
unfolding write_error
search_route v vuz_code diploma_number =
    write searched (search v (trim_space vuz_code) (trim_space diploma_number))
