-- ===== src/Pubver.antt =====
-- pubver: the public verification API.
pub mod Domain
pub mod Hash
pub mod Jwt
pub mod Enc
pub mod Service
pub mod Repository
pub mod Router
pub mod Limiter
pub mod Config
pub mod Serving
mod Examples
