-- ===== src/Pubver/Limiter/Clients.antt =====
-- What the limiter keeps of each client.
use diasoft.Prelude.{
  ℕ, ◌≤◌, String, ◌≡◌, ◌≢◌, ◌⊎◌, inl, inr, true, ltb, ◌==◌, Eq-string, eq_iff, Bool-cases, arith,
}
use diasoft.Pubver.Limiter.{
  Rate, IpRateLimiter, cleanup_visitors, limiter_of, reserve, handed_on, refused, with_rate_limit,
  retry_after,
}

retry_after_lem : (wait : ℕ) → 1 ≤ retry_after wait
retry_after_lem wait = ground arith

module _ {L : Type 0} (rate : Rate L) (l : IpRateLimiter L) (now : ℕ) where
  -- After a request of one client, another client has what it had before, or what the cleaning
  -- leaves it.
  pub with_rate_limit_other :
      (path ip other : String)
      → other ≢ ip
      → ((with_rate_limit rate path ip now l).1.visitors other ≡ l.visitors other)
        ⊎ ((with_rate_limit rate path ip now l).1.visitors other
            ≡ (cleanup_visitors rate l now).visitors other)
  unfolding with_rate_limit reserve
  with_rate_limit_other path ip other differs = ground (arith, eq_iff other ip)

  pub with_rate_limit_health :
      (ip : String) → (with_rate_limit rate "/healthz" ip now l).0 ≡ handed_on
  unfolding with_rate_limit
  with_rate_limit_health ip = ground (arith, eq_iff "/healthz" "/healthz")

  -- A request of a client with a token now is handed on.
  pub with_rate_limit_token :
      (path ip : String)
      → rate.can_have (limiter_of rate ((cleanup_visitors rate l now).visitors ip)) now ≡ true
      → rate.delay (limiter_of rate ((cleanup_visitors rate l now).visitors ip)) now ≡ 0
      → (with_rate_limit rate path ip now l).0 ≡ handed_on
  unfolding with_rate_limit reserve
  with_rate_limit_token path ip later at_once = ground arith

  -- A refused request is told to wait at least a second, and a request is handed on only if it asks for
  -- the health check or its client's limiter has a token now.
  pub with_rate_limit_lem :
      (path ip : String)
      → ((seconds : ℕ) × ((with_rate_limit rate path ip now l).0 ≡ refused seconds) × (1 ≤ seconds))
        ⊎ (((with_rate_limit rate path ip now l).0 ≡ handed_on)
            × ((path ≡ "/healthz")
                ⊎ ((rate.can_have (limiter_of rate ((cleanup_visitors rate l now).visitors ip)) now
                      ≡ true)
                    × (rate.delay (limiter_of rate ((cleanup_visitors rate l now).visitors ip)) now
                        ≡ 0))))
  unfolding with_rate_limit reserve
  with_rate_limit_lem path ip =
      let limiter = limiter_of rate ((cleanup_visitors rate l now).visitors ip) in
      let wait = rate.delay limiter now in
      elim (Bool-cases (path == "/healthz")) [
        | inl health ↦ inr (ground arith, inl ((eq_iff _ _).0 health))
        | inr other ↦ elim (Bool-cases (rate.can_have limiter now)) [
          | inr never ↦ inl (1, ground arith, omega arith)
          | inl later ↦ elim (Bool-cases (ltb 0 wait)) [
            | inl waits ↦ inl (retry_after wait, ground arith, retry_after_lem wait)
            | inr at_once ↦ inr (ground arith, inr (later, ground arith))
          ]
        ]
      ]
