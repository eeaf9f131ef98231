-- ===== src/Gateway/Handlers.antt =====
-- The handlers of gateway-service/internal/transport/http/handler other than those of uploads and
-- share links, over the services that they call.
pub mod Admin
pub mod Cabinet
pub mod Diplomas
pub mod Keys
pub mod Outside
pub mod Entry
use diasoft.Prelude.{String, Option, none, some, Result, ok, err}
use diasoft.Gateway.Model.{Error}
use diasoft.Gateway.Access.{Ctx}
use diasoft.Gateway.Http.{Response, http_error, answered}

-- What a handler does with the result of its service: the answer, or the status and the text of the
-- error.
abbrev pub respond_with :
    {A B : Type 0} → (A → Response B) → (Error → Response B) → Result Error A → Response B
respond_with good bad (ok a) = good a
respond_with good bad (err e) = bad e

-- The same for a service that changes the tables.
abbrev pub respond_call :
    {A B S : Type 0} → (A → Response B) → (Error → Response B) → Result Error A × S → Response B × S
respond_call good bad (r, s) = (respond_with good bad r, s)

abbrev pub internal : {B : Type 0} → String → Error → Response B
internal text e = http_error 500 text

-- UniversityIDFromContext
abbrev pub as_university : {B S : Type 0} → Ctx → (String → S → Response B × S) → S → Response B × S
as_university ctx m s = elim ctx.university_id [
  | none ↦ (http_error 401 "unauthorized", s)
  | some vuz_id ↦ m vuz_id s
]

abbrev pub as_university_reading : {B : Type 0} → Ctx → (String → Response B) → Response B
as_university_reading ctx m = elim ctx.university_id [
  | none ↦ http_error 401 "unauthorized"
  | some vuz_id ↦ m vuz_id
]
