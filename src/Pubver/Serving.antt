-- ===== src/Pubver/Serving.antt =====
-- NewRouter of pubver/internal/httpapi/router.go: the handlers behind the identifiers of requests and the
-- limit of middleware.go.
use diasoft.Prelude.{
  ◌≢◌, ap, ◌∙◌, false, eq_iff, ℕ, ◌≤◌, String, ◌≡◌, inl, inr, Bool, true, ◌&&◌, ◌||◌, is_empty,
  ◌==◌, Eq-string, if◌then◌else◌, arith,
}
use diasoft.Pubver.Service.{VerificationService}
use diasoft.Pubver.Router.{Response, verify, search_route}
use diasoft.Pubver.Limiter.{
  Rate, IpRateLimiter, Origin, Verdict, handed_on, refused, cleanup_visitors, limiter_of,
  with_rate_limit, extract_client_ip,
}
use diasoft.Pubver.Limiter.Clients.{
  with_rate_limit_lem, with_rate_limit_health, with_rate_limit_token,
}

-- A request: the method, the path, the parameters of the query, the header X-Request-ID, and where it
-- comes from.
pub record Request : Type 0 where
  pub method : String
  pub path : String
  pub payload : String
  pub vuz_code : String
  pub diploma_number : String
  pub x_request_id : String
  pub origin : Origin

-- The status 200 of the health check, the response of a handler, the status 429 with the header
-- Retry-After, or what the mux answers where it has no route.
pub data Reply : Type 0 where
  healthy : Reply
  handled : Response → Reply
  too_many : ℕ → Reply
  no_route : Reply

-- The reply under the header X-Request-ID.
pub record Served : Type 0 where
  pub request_id : String
  pub reply : Reply

-- A pattern of the mux for GET admits HEAD.
abbrev pub is_route : Request → String → Bool
is_route q path = (q.method == "GET" || q.method == "HEAD") && q.path == path

unfoldable pub mux : VerificationService → Request → Reply
mux v q =
    if is_route q "/healthz"
    then healthy
    else if is_route q "/api/v1/verify"
    then handled (verify v q.payload)
    else if is_route q "/api/v1/verify/search"
    then handled (search_route v q.vuz_code q.diploma_number)
    else no_route

module _ {L : Type 0} (rate : Rate L) where
  abbrev limited : Reply → Verdict × IpRateLimiter L → Reply × IpRateLimiter L
  limited next (handed_on, l) = (next, l)
  limited next (refused seconds, l) = (too_many seconds, l)

  -- The identifier of withRequestID; `new_id` is newRequestID.
  abbrev pub request_id_of : String → Request → String
  request_id_of new_id q = if is_empty q.x_request_id then new_id else q.x_request_id

  unfoldable pub serve :
      Bool → VerificationService → String → ℕ → Request → IpRateLimiter L → Served × IpRateLimiter L
  unfolding mux
  serve enabled v new_id now q l =
      let checked =
        limited (mux v q) (with_rate_limit rate q.path (extract_client_ip q.origin) now l) in
      let (reply, l') = if enabled then checked else (mux v q, l) in
      (record { request_id = request_id_of new_id q; reply = reply }, l')

  -- The client of a request has a token now.
  abbrev pub HasToken : ℕ → Request → IpRateLimiter L → Type 0
  HasToken now q l =
      let limiter =
        limiter_of rate ((cleanup_visitors rate l now).visitors (extract_client_ip q.origin)) in
      (rate.can_have limiter now ≡ true) × (rate.delay limiter now ≡ 0)

  -- The health check is answered with success.
  healthy_route :
      (v : VerificationService) (q : Request) → is_route q "/healthz" ≡ true → mux v q ≡ healthy
  unfolding mux
  healthy_route v q health = ground arith

  verify_on_route :
      (v : VerificationService) (q : Request)
      → q.method ≡ "GET"
      → q.path ≡ "/api/v1/verify"
      → mux v q ≡ handled (verify v q.payload)
  unfolding mux
  verify_on_route v q get e =
      let routed : is_route q "/api/v1/verify" ≡ true =
        ground (arith, eq_iff q.path "/api/v1/verify", eq_iff q.method "GET") in
      let other : (q.path == "/healthz") ≡ false = ap (λ p. p == "/healthz") e in ground arith

  search_on_route :
      (v : VerificationService) (q : Request)
      → q.method ≡ "GET"
      → q.path ≡ "/api/v1/verify/search"
      → mux v q ≡ handled (search_route v q.vuz_code q.diploma_number)
  unfolding mux
  search_on_route v q get e =
      let routed : is_route q "/api/v1/verify/search" ≡ true =
        ground (arith, eq_iff q.path "/api/v1/verify/search", eq_iff q.method "GET") in
      let other : (q.path == "/healthz") ≡ false = ap (λ p. p == "/healthz") e in
      let not_verify : (q.path == "/api/v1/verify") ≡ false = ap (λ p. p == "/api/v1/verify") e in
      ground arith

  -- What a request gets with the limit on.
  pub record Serves (v : VerificationService) (new_id : String) (now : ℕ) (q : Request)
      (l : IpRateLimiter L) (s : Served) : Type 0 where
    pub kept_id : is_empty q.x_request_id ≡ false → s.request_id ≡ q.x_request_id
    pub fresh_id : is_empty q.x_request_id ≡ true → s.request_id ≡ new_id
    pub health : q.path ≡ "/healthz" → s.reply ≡ mux v q
    pub get_health : q.path ≡ "/healthz" → q.method ≡ "GET" → s.reply ≡ healthy
    pub served : HasToken now q l → s.reply ≡ mux v q
    pub verified :
        HasToken now q l
        → q.method ≡ "GET"
        → q.path ≡ "/api/v1/verify"
        → s.reply ≡ handled (verify v q.payload)
    pub searched :
        HasToken now q l
        → q.method ≡ "GET"
        → q.path ≡ "/api/v1/verify/search"
        → s.reply ≡ handled (search_route v q.vuz_code q.diploma_number)
    pub limited_to :
        q.path ≢ "/healthz"
        → ¬ HasToken now q l
        → (seconds : ℕ) × (s.reply ≡ too_many seconds) × (1 ≤ seconds)

  -- With the limit on, every request gets the identifier that it brought, or a new one where it brought
  -- none. The handler of its route answers it where it asks for the path of the health check, which is a
  -- success for GET, or where the limiter of its client has a token now (for GET of the two paths of the
  -- verification, the handlers verify and search); any other request is told to wait
  -- for at least a second.
  pub serve_lem :
      (v : VerificationService) (new_id : String) (now : ℕ) (q : Request) (l : IpRateLimiter L)
      → Serves v new_id now q l (serve true v new_id now q l).0
  unfolding serve
  serve_lem v new_id now q l =
      let ip = extract_client_ip q.origin in
      let answered : q.path ≡ "/healthz" → (serve true v new_id now q l).0.reply ≡ mux v q = λ e.
        (let goes : (with_rate_limit rate q.path ip now l).0 ≡ handed_on =
            ap (λ p. (with_rate_limit rate p ip now l).0) e
            ∙ with_rate_limit_health rate l now ip in
          ground arith) in
      let served_now : HasToken now q l → (serve true v new_id now q l).0.reply ≡ mux v q =
        λ t. (let goes = with_rate_limit_token rate l now q.path ip t.0 t.1 in ground arith) in
      record {
        kept_id = λ full. ground arith;
        fresh_id = λ none_given. ground arith;
        health = answered;
        get_health = λ e get.
            answered e
            ∙ healthy_route v q (ground (arith, eq_iff q.path "/healthz", eq_iff q.method "GET"));
        served = served_now;
        verified = λ t get e. served_now t ∙ verify_on_route v q get e;
        searched = λ t get e. served_now t ∙ search_on_route v q get e;
        limited_to = λ other no_token. elim (with_rate_limit_lem rate l now q.path ip) [
          | inl (seconds, waits, least) ↦ (seconds, ground arith, least)
          | inr (goes, inl health) ↦ absurd (other health)
          | inr (goes, inr token) ↦ absurd (no_token token)
        ];
      }
