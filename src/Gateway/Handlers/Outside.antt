-- ===== src/Gateway/Handlers/Outside.antt =====
-- What anyone may ask for: Search, QR and parseOptionalHours of gateway-service/internal/transport/
-- http/handler/student.go, with RenderShareQR of internal/service/student.go.
use diasoft.Prelude.{
  ℕ, ◌*◌, String, Option, none, some, List, ◌&&◌, Result, ok, err, ℤ, pos, negsuc, is_empty,
  to_int64, parse_int64, ◌==◌, Eq-string, if◌then◌else◌,
}
use diasoft.Gateway.Model.{Error, diploma_not_found}
use diasoft.Gateway.Sealing.{Bytes}
use diasoft.Gateway.Store.{Db, Env}
use diasoft.Gateway.Http.{Response, http_error, answered}
use diasoft.Gateway.Students.{Service, ShareLink, Student, create_share_link}
use diasoft.Gateway.Students.Handler.{hour}
use diasoft.Gateway.Students.Search.{search_students}
use diasoft.Gateway.Handlers.{respond_with, respond_call, internal}

unfoldable pub search : (String → String) → Env → String → String → Db → Response (List Student)
search to_lower env number name db =
    let found =
      respond_with (λ items. answered 200 items) (internal "failed to search students")
        (search_students to_lower env number name db) in
    if is_empty number && is_empty name
    then http_error 400 "at least one search parameter is required"
    else found

-- The product of int64 wraps around.
abbrev positive_hours : Option ℤ → ℤ
positive_hours none = pos 0
positive_hours (some (negsuc h)) = pos 0
positive_hours (some (pos h)) = to_int64 (h * hour)

abbrev pub parse_optional_hours : String → ℤ
parse_optional_hours value = if is_empty value then pos 0 else positive_hours (parse_int64 value)

-- The images of package qr for the URL of a link, and strings.ToLower.
pub record Images : Type 0 where
  pub png : ShareLink → ℕ → Result Error Bytes
  pub svg : ShareLink → ℕ → Result Error Bytes
  pub to_lower : String → String

-- An image with the type of its content.
abbrev typed : String → Result Error Bytes → Result Error (Bytes × String)
typed content (ok bytes) = ok (bytes, content)
typed content (err e) = err e

abbrev drawn : Images → String → ShareLink → Result Error (Bytes × String)
drawn images format link =
    if images.to_lower format == "svg"
    then typed "image/svg+xml" (images.svg link 8)
    else typed "image/png" (images.png link 220)

-- The link is stored also where its image cannot be drawn.
abbrev after_link :
    Images → String → Result Error ShareLink × Db → Result Error (Bytes × String) × Db
after_link images format (ok link, db) = (drawn images format link, db)
after_link images format (err e, db) = (err e, db)

unfoldable pub render_share_qr :
    Images → Service → Env → String → String → ℤ → Db → Result Error (Bytes × String) × Db
render_share_qr images s env hash format ttl db =
    after_link images format (create_share_link s env hash ttl db)

abbrev qr_error : Error → Response (Bytes × String)
qr_error diploma_not_found = http_error 404 "diploma not found"
qr_error other = http_error 500 "failed to generate qr code"

unfoldable pub qr :
    Images → Service → Env → String → String → String → Db → Response (Bytes × String) × Db
unfolding render_share_qr
qr images s env hash format ttl_hours db =
    let done =
      respond_call (λ image. answered 200 image) qr_error
        (render_share_qr images s env hash format (parse_optional_hours ttl_hours) db) in
    if is_empty hash then (http_error 400 "missing diploma_hash", db) else done
