-- ===== src/Pubver/Limiter.antt =====
-- pubver/internal/httpapi/middleware.go: the limit on the requests of each client. Times and delays
-- are nanoseconds.
pub mod Clients
use diasoft.Prelude.{
  ℕ, ◌+◌, ◌*◌, ◌/◌, String, Option, none, some, List, [], ◌∷◌, Bool, true, false, not, ◌&&◌, ◌||◌,
  ℤ, is_positive, ltb, ltb_ℤ, sub_ℕ, trim_space, is_empty, split, ◌==◌, Eq-string, if◌then◌else◌,
}

-- golang.org/x/time/rate: a limiter by its state L. Reserving one token at a time gives whether it can
-- be had at all, the delay until then, and the next state; a reservation can be given back.
pub record Rate (L : Type 0) : Type 0 where
  pub fresh : L
  pub can_have : L → ℕ → Bool
  pub delay : L → ℕ → ℕ
  pub reserved : L → ℕ → L
  pub cancelled : L → ℕ → L

pub record Visitor (L : Type 0) : Type 0 where
  pub limiter : L
  pub last_seen : ℕ

-- ipRateLimiter; `last_cleanup` is none for the zero time.
pub record IpRateLimiter (L : Type 0) : Type 0 where
  pub visitor_ttl : ℤ
  pub cleanup_interval : ℤ
  pub last_cleanup : Option ℕ
  pub visitors : String → Option (Visitor L)

module _ {L : Type 0} (rate : Rate L) where
  abbrev pub has_expired : ℤ → ℕ → Visitor L → Bool
  has_expired ttl now v = ltb_ℤ ttl (sub_ℕ now v.last_seen)

  abbrev kept : ℤ → ℕ → Option (Visitor L) → Option (Visitor L)
  kept ttl now none = none
  kept ttl now (some v) = if has_expired ttl now v then none else some v

  abbrev pub too_early : IpRateLimiter L → ℕ → Bool
  too_early l now = elim l.last_cleanup [
    | none ↦ false
    | some t ↦ ltb_ℤ (sub_ℕ now t) l.cleanup_interval
  ]

  unfoldable pub cleanup_visitors : IpRateLimiter L → ℕ → IpRateLimiter L
  cleanup_visitors l now =
      if not (is_positive l.cleanup_interval) || not (is_positive l.visitor_ttl)
      then l
      else if too_early l now
      then l
      else record l {
        visitors = λ ip. kept l.visitor_ttl now (l.visitors ip);
        last_cleanup = some now;
      }

  -- The limiter of a client, a new one for a client that is not known.
  abbrev pub limiter_of : Option (Visitor L) → L
  limiter_of none = rate.fresh
  limiter_of (some v) = v.limiter

  abbrev put : IpRateLimiter L → String → Visitor L → IpRateLimiter L
  put l ip v = record l { visitors = λ other. if other == ip then some v else l.visitors other }

  -- `reserve`, with the limiter that the reservation was made of, as it stood before.
  unfoldable pub reserve : IpRateLimiter L → String → ℕ → L × IpRateLimiter L
  unfolding cleanup_visitors
  reserve l ip now =
      let clean = cleanup_visitors l now in
      let limiter = limiter_of (clean.visitors ip) in
      (limiter, put clean ip (record { limiter = rate.reserved limiter now; last_seen = now }))

-- Whether the request is handed on, or refused with the header Retry-After.
pub data Verdict : Type 0 where
  handed_on : Verdict
  refused : ℕ → Verdict

-- int(math.Ceil(delay.Seconds())), and at least 1; exact, where the code goes through a float64
abbrev pub retry_after : ℕ → ℕ
retry_after delay =
    let seconds = (delay + 999_999_999) / 1_000_000_000 in if ltb seconds 1 then 1 else seconds

module _ {L : Type 0} (rate : Rate L) where
  abbrev give_back : IpRateLimiter L → String → L → ℕ → IpRateLimiter L
  give_back l ip limiter now =
      put rate l ip
        (record { limiter = rate.cancelled (rate.reserved limiter now) now; last_seen = now })

  abbrev pub judged : String → ℕ → L × IpRateLimiter L → Verdict × IpRateLimiter L
  judged ip now (limiter, l) =
      if not (rate.can_have limiter now)
      then (refused 1, l)
      else if ltb 0 (rate.delay limiter now)
      then (refused (retry_after (rate.delay limiter now)), give_back l ip limiter now)
      else (handed_on, l)

  -- The handler of `withRateLimit`, for a path and a client.
  unfoldable pub with_rate_limit : String → String → ℕ → IpRateLimiter L → Verdict × IpRateLimiter L
  unfolding reserve
  with_rate_limit path ip now l =
      if path == "/healthz" then (handed_on, l) else judged ip now (reserve rate l ip now)

-- The headers, the address of the connection, and netip.ParseAddrPort and netip.ParseAddr with the
-- text of the address that they read.
pub record Origin : Type 0 where
  pub x_forwarded_for : String
  pub x_real_ip : String
  pub remote_addr : String
  pub parse_addr_port : String → Option String
  pub parse_addr : String → Option String

abbrev first_part : List String → String
first_part [] = ""
first_part (p ∷ ps) = trim_space p

abbrev connection_ip : Origin → String
connection_ip o =
    let host = trim_space o.remote_addr in
    elim (o.parse_addr_port host) [
      | some ip ↦ ip
      | none ↦ elim (o.parse_addr host) [ some ip ↦ ip | none ↦ host ]
    ]

unfoldable pub extract_client_ip : Origin → String
extract_client_ip o =
    let forwarded = trim_space o.x_forwarded_for in
    let first_hop = first_part (split b',' forwarded) in
    if not (is_empty forwarded) && not (is_empty first_hop)
    then first_hop
    else if not (is_empty (trim_space o.x_real_ip))
    then trim_space o.x_real_ip
    else connection_ip o
