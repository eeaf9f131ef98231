-- ===== src/Gateway/Handlers/Entry.antt =====
-- The handlers Register and Login of gateway-service/internal/transport/http/handler/auth.go.
pub mod Answers
use diasoft.Prelude.{String, Option, none, some, Bool, Result, ok, err, if◌then◌else◌}
use diasoft.Gateway.Model.{
  Error, duplicate_entity, invalid_credentials, university_pending, university_blocked,
  university_inactive,
}
use diasoft.Gateway.Http.{Response, http_error, answered}
use diasoft.Gateway.Accounts.{Accounts, Registration, Surroundings}
use diasoft.Gateway.Auth.{Service, Registered, Session, register, login}
use diasoft.Gateway.Handlers.{respond_with, respond_call}

abbrev register_error : Error → Response Registered
register_error duplicate_entity = http_error 409 "entity already exists"
register_error other = http_error 500 "failed to register university"

-- `refused` is the validator, with the text of its error.
unfoldable pub register_route :
    Service
    → Surroundings
    → (Registration → Option String)
    → Option Registration
    → Accounts
    → Response Registered × Accounts
unfolding register
register_route s env refused none db = (http_error 400 "invalid request body", db)
register_route s env refused (some r) db =
    let done = respond_call (λ x. answered 201 x) register_error (register s env r db) in
    elim (refused r) [ none ↦ done | some text ↦ (http_error 400 text, db) ]

-- LoginRequest
pub record LoginRequest : Type 0 where
  pub email : String
  pub password : String

abbrev pub login_error : Error → Response Session
login_error invalid_credentials = http_error 401 "invalid credentials"
login_error university_pending = http_error 403 "university account is pending approval"
login_error university_blocked = http_error 403 "university account is blocked"
login_error university_inactive = http_error 403 "university account is not active"
login_error other = http_error 500 "failed to authenticate"

unfoldable pub login_route :
    Service
    → Surroundings
    → (LoginRequest → Option String)
    → Option LoginRequest
    → Accounts
    → Response Session
login_route s env refused none db = http_error 400 "invalid request body"
login_route s env refused (some q) db =
    let done = respond_with (λ x. answered 200 x) login_error (login s env q.email q.password db) in
    elim (refused q) [ none ↦ done | some text ↦ http_error 400 text ]
