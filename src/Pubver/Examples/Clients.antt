-- ===== src/Pubver/Examples/Clients.antt =====
-- The theorems on the limiter, for limiters that count the tokens left.
use diasoft.Prelude.{ℕ, ◌-◌, none, some, true, ltb, pos, ◌==◌, Eq-string, if◌then◌else◌}
use diasoft.Pubver.Limiter.{Rate, Visitor, IpRateLimiter}
use diasoft.Pubver.Serving.{Request, Serves, serve, serve_lem}
use diasoft.Gateway.Examples.{empty_db}
use diasoft.Pubver.Service.{VerificationService}
use diasoft.Pubver.Examples.{service_on}

abbrev rate : Rate ℕ
rate = record {
  fresh = 2;
  can_have = λ left now. true;
  delay = λ left now. if ltb 0 left then 0 else 1_000_000_000;
  reserved = λ left now. left - 1;
  cancelled = λ left now. left;
}

abbrev visitor : Visitor ℕ
visitor = record { limiter = 1; last_seen = 5 }

abbrev limiter : IpRateLimiter ℕ
limiter = record {
  visitor_ttl = pos 10;
  cleanup_interval = pos 1;
  last_cleanup = none;
  visitors = λ ip. if ip == "10.0.0.1" then some visitor else none;
}

abbrev service : VerificationService
service = service_on empty_db

abbrev request : Request
request = record {
  method = "GET";
  path = "/api/v1/verify";
  payload = "token";
  vuz_code = "";
  diploma_number = "";
  x_request_id = "r1";
  origin = record {
    x_forwarded_for = "";
    x_real_ip = "10.0.0.1";
    remote_addr = "";
    parse_addr_port = λ text. none;
    parse_addr = λ text. none;
  };
}

serve_lem_example :
    Serves rate service "r2" 7 request limiter (serve rate true service "r2" 7 request limiter).0
serve_lem_example = serve_lem rate service "r2" 7 request limiter
