-- ===== src/Gateway/Examples/Answers.antt =====
-- The theorems on the handlers, at one university.
use diasoft.Prelude.{
  equal_fold, ◌≡◌, ◌≢◌, refl, some, [], ◌∷◌, ok, map, trim_space, parse_int64, order_by,
}
use diasoft.Gateway.Http.{answered}
use diasoft.Gateway.Accounts.{Accounts, update_status}
use diasoft.Gateway.ApiKeys.{active_owner, find_active_university_by_hash}
use diasoft.Gateway.Access.{
  Middleware, Headers, Ctx, next, background, with_university, with_api_key_id, diploma_route,
  university_or_api_key, extract_bearer_token, extract_api_key, by_api_key,
}
use diasoft.Gateway.Auth.{Service}
use diasoft.Gateway.Batches.Listing.{view, list_batches}
use diasoft.Gateway.Removal.{Tables}
use diasoft.Gateway.Handlers.Admin.{to_university_admin_response, update_university_status}
use diasoft.Gateway.Handlers.Admin.Shut.{ShutsOut, by_status, diploma_route-ShutsOut}
use diasoft.Gateway.Handlers.Cabinet.{Newest, list_batches_route, list_batches_route-Newest}
use diasoft.Gateway.Handlers.Entry.Answers.{Signs}
use diasoft.Gateway.Examples.{env, empty_db, batch_db, pending_batch}
use diasoft.Gateway.Examples.Entry.{accounts, surroundings, owner, tokens, key, guard_of, service}

abbrev asks : Ctx
asks = with_university background "u1" "a@b"

listed :
    list_batches_route env asks " 5 " batch_db
    ≡ answered 200 (map (view batch_db) (pending_batch ∷ []))
unfolding list_batches_route list_batches trim_space parse_int64 order_by
listed = refl

list_batches_route-Newest_example :
    Newest asks " 5 " batch_db (map (view batch_db) (pending_batch ∷ []))
list_batches_route-Newest_example =
    list_batches_route-Newest env asks " 5 " batch_db (map (view batch_db) (pending_batch ∷ []))
      listed

abbrev pub signing : Service
signing = record service {
  tokens = record tokens {
    access_jwt = record tokens.access_jwt { sign = λ secret c. ok "token" };
  };
}

pub signing-Signs : Signs signing.tokens
unfolding Signs
signing-Signs c = ("token", refl)

-- Two universities, each with a key.
abbrev both : Accounts
both = record accounts {
  universities =
      owner
      ∷ record owner { id = "u2"; vuz_code = "V2"; inn = "2"; ogrn = "2"; email = "c@d" }
      ∷ [];
  api_keys = record key { id = "k2"; vuz_id = "u2"; key_hash = "other" } ∷ accounts.api_keys;
}

abbrev tables : Tables
tables = record { accounts = both; db = empty_db }

abbrev blocked : Accounts
blocked = (update_university_status surroundings "u1" (some "blocked") both).1

blocks : ShutsOut surroundings "u1" tables (record tables { accounts = blocked })
unfolding update_university_status update_status
blocks =
    by_status "blocked" (to_university_admin_response (record owner { status = "blocked" })) blocked
      refl refl

abbrev guard : Middleware
guard = record (guard_of tokens) { accounts = blocked }

abbrev with_other : Headers
with_other = record { authorization = ""; x_api_key = "other" }

abbrev by_other : Ctx
by_other = with_api_key_id (with_university background "u2" "c@d") "k2"

other_passes : diploma_route guard with_other ≡ next by_other
unfolding diploma_route university_or_api_key extract_bearer_token by_api_key extract_api_key
    find_active_university_by_hash active_owner trim_space equal_fold update_university_status
    update_status
other_passes = refl

diploma_route-ShutsOut_example : by_other.university_id ≢ some "u1"
diploma_route-ShutsOut_example =
    diploma_route-ShutsOut surroundings "u1" tables (record tables { accounts = blocked }) guard
      with_other by_other blocks refl refl other_passes
