-- ===== src/Gateway/Http.antt =====
-- What the handlers of gateway-service/internal/transport/http/handler answer: writeError and
-- writeJSON of common.go.
use diasoft.Prelude.{ℕ, String}

pub data Response (A : Type 0) : Type 0 where
  http_error : ℕ → String → Response A
  answered : ℕ → A → Response A

abbrev pub status_of : {A : Type 0} → Response A → ℕ
status_of (http_error code text) = code
status_of (answered code a) = code
