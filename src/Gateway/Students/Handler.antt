-- ===== src/Gateway/Students/Handler.antt =====
-- The handlers Share and SharedDiploma of gateway-service/internal/transport/http/handler/student.go.
use diasoft.Prelude.{
  ℕ, ◌+◌, ◌*◌, ◌≤◌, ◌<◌, ◌≡◌, String, Option, none, some, Bool, true, Result, ok, err, ℤ, pos,
  negsuc, is_empty, to_int64, ap, ◌∙◌, if◌then◌else◌, arith,
}
use diasoft.Gateway.Model.{Error, diploma_not_found, share_link_expired, invalid_share_token}
use diasoft.Gateway.Store.{Db, Env}
use diasoft.Gateway.Token.{second}
use diasoft.Gateway.Students.{
  Service, ShareLink, SharedDiploma, create_share_link, resolve_share_link,
}
use diasoft.Gateway.Students.Links.{ends_at, create_share_link_ends}

-- CreateShareLinkRequest
pub record ShareRequest : Type 0 where
  pub diploma_hash : String
  pub ttl_hours : Option ℤ

pub data Response : Type 0 where
  http_error : ℕ → Response
  created : ShareLink → Response
  shared : SharedDiploma → Response

abbrev pub hour : ℕ
hour = 3600 * second

-- time.Duration(hours) * time.Hour is a product of values of int64, which wraps around.
unfoldable pub hours_to_duration : Option ℤ → ℤ
hours_to_duration none = pos 0
hours_to_duration (some (pos h)) = to_int64 (h * hour)
hours_to_duration (some (negsuc h)) = pos 0

abbrev share_error : Error → ℕ
share_error diploma_not_found = 404
share_error other = 500

abbrev share_response : Result Error ShareLink × Db → Response × Db
share_response (ok link, db) = (created link, db)
share_response (err e, db) = (http_error (share_error e), db)

-- The request as its body reads; `valid` is the validator.
unfoldable pub share :
    Service → Env → (ShareRequest → Bool) → Option ShareRequest → Db → Response × Db
share s env valid none db = (http_error 400, db)
share s env valid (some q) db =
    let done =
      share_response (create_share_link s env q.diploma_hash (hours_to_duration q.ttl_hours) db) in
    if valid q then done else (http_error 400, db)

abbrev shared_error : Error → ℕ
shared_error invalid_share_token = 401
shared_error share_link_expired = 410
shared_error diploma_not_found = 404
shared_error other = 500

abbrev shared_response : Result Error SharedDiploma × Db → Response × Db
shared_response (ok d, db) = (shared d, db)
shared_response (err e, db) = (http_error (shared_error e), db)

unfoldable pub shared_diploma : Service → Env → String → Db → Response × Db
shared_diploma s env token db =
    let done = shared_response (resolve_share_link s env token db) in
    if is_empty token then (http_error 400, db) else done

-- The rule lte=720 of the request, as the validator documents it.
abbrev pub AtMost : (ShareRequest → Bool) → Type 0
AtMost valid = (q : ShareRequest) (h : ℕ) → valid q ≡ true → q.ttl_hours ≡ some (pos h) → h ≤ 720

hours_to_duration_few : (h : ℕ) → h ≤ 720 → hours_to_duration (some (pos h)) ≡ pos (h * hour)
unfolding hours_to_duration
hours_to_duration_few h few = ground arith

share-cases :
    (s : Service) (env : Env) (valid : ShareRequest → Bool) (q : ShareRequest) (link : ShareLink)
    (db db' : Db)
    → share s env valid (some q) db ≡ (created link, db')
    → (valid q ≡ true)
      × (create_share_link s env q.diploma_hash (hours_to_duration q.ttl_hours) db ≡ (ok link, db'))
unfolding share
share-cases s env valid q link db db' done = ground arith

-- If the validator keeps the rule on hours, a link that a request for some hours created ends that
-- many hours later: the duration does not overflow.
pub share_ends :
    (s : Service) (env : Env) (valid : ShareRequest → Bool) (q : ShareRequest) (h : ℕ)
    (link : ShareLink) (db db' : Db)
    → AtMost valid
    → q.ttl_hours ≡ some (pos h)
    → 0 < h
    → share s env valid (some q) db ≡ (created link, db')
    → link.expires_at ≡ env.now + h * hour
share_ends s env valid q h link db db' rule given some_hour done =
    let (accepted, called) = share-cases s env valid q link db db' done in
    let few = rule q h accepted given in
    let exact : hours_to_duration q.ttl_hours ≡ pos (h * hour) =
      ap hours_to_duration given ∙ hours_to_duration_few h few in
    create_share_link_ends s env q.diploma_hash _ link db db' called
    ∙ ap (ends_at s env) exact
    ∙ ground arith
