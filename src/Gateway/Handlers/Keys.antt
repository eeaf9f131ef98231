-- ===== src/Gateway/Handlers/Keys.antt =====
-- The handlers api_keys.go and signing_keys.go of gateway-service/internal/transport/http/handler.
use diasoft.Prelude.{String, Option, none, some, List}
use diasoft.Gateway.Model.{
  Error, no_rows, invalid_signing_key, signing_key_mismatch, signing_key_not_found,
}
use diasoft.Gateway.Http.{Response, http_error, answered}
use diasoft.Gateway.Access.{Ctx}
use diasoft.Gateway.Accounts.{Accounts, Surroundings}
use diasoft.Gateway.ApiKeys
use diasoft.Gateway.ApiKeys.{Created, Summary, create, list_active_by_vuz}
use diasoft.Gateway.SigningKeys
use diasoft.Gateway.SigningKeys.{KeyStatus, upsert, status}
use diasoft.Gateway.Handlers.{
  respond_with, respond_call, internal, as_university, as_university_reading,
}

-- The body of a request as it reads: none where it does not decode. A body that is empty reads as a
-- request without a name. `refused` is the validator, with the
-- text of its error.
unfoldable pub create_route :
    ApiKeys.Service
    → Surroundings
    → (Option String → Option String)
    → Ctx
    → Option (Option String)
    → Accounts
    → Response Created × Accounts
unfolding create
create_route s env refused ctx none =
    as_university ctx λ vuz_id db. (http_error 400 "invalid request body", db)
create_route s env refused ctx (some name) = as_university ctx λ vuz_id db.
    let done =
      respond_call (λ c. answered 201 c) (internal "failed to create api key")
        (create s env vuz_id name db) in
    elim (refused name) [ none ↦ done | some text ↦ (http_error 400 text, db) ]

unfoldable pub list_route : Surroundings → Ctx → Accounts → Response (List Summary) × Accounts
unfolding list_active_by_vuz
list_route env ctx = as_university ctx λ vuz_id db.
    respond_call (λ items. answered 200 items) (internal "failed to load api keys")
      (list_active_by_vuz env vuz_id db)

abbrev upsert_error : Error → Response KeyStatus
upsert_error invalid_signing_key = http_error 400 "invalid Ed25519 private key"
upsert_error signing_key_mismatch =
    http_error 400 "private key does not match university public key"
upsert_error no_rows = http_error 404 "university not found"
upsert_error other = http_error 500 "failed to save signing key"

unfoldable pub upsert_route :
    SigningKeys.Service
    → Surroundings
    → (String → Option String)
    → Ctx
    → Option String
    → Accounts
    → Response KeyStatus × Accounts
unfolding upsert
upsert_route s env refused ctx none =
    as_university ctx λ vuz_id db. (http_error 400 "invalid request body", db)
upsert_route s env refused ctx (some private_key_pem) = as_university ctx λ vuz_id db.
    let done =
      respond_call (λ k. answered 201 k) upsert_error (upsert s env vuz_id private_key_pem db) in
    elim (refused private_key_pem) [ none ↦ done | some text ↦ (http_error 400 text, db) ]

abbrev status_error : Error → Response KeyStatus
status_error signing_key_not_found = http_error 404 "signing key is not configured"
status_error other = http_error 500 "failed to load signing key status"

unfoldable pub status_route : Surroundings → Ctx → Accounts → Response KeyStatus
status_route env ctx db =
    as_university_reading ctx
      λ vuz_id. respond_with (λ k. answered 200 k) status_error (status env vuz_id db)
