-- ===== src/Gateway.antt =====
-- gateway-service: the university gateway.
pub mod Model
pub mod Store
pub mod Payload
pub mod Results
pub mod Batches
pub mod Consumer
pub mod Sealing
pub mod QrCodec
pub mod Csv
pub mod Upload
pub mod Producer
pub mod Token
pub mod Students
pub mod Http
pub mod Accounts
pub mod ApiKeys
pub mod SigningKeys
pub mod Removal
pub mod Access
pub mod Auth
pub mod Excel
pub mod Handlers
pub mod Startup
pub mod Examples
