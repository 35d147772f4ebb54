-- ===== src/Gateway.antt =====
-- backend/internal/service/gateway.go: one client request over the account pool.
pub mod State
pub mod Errors
pub mod Retry
pub mod Request
pub mod Payload
pub mod Sticky
pub mod Leases
pub mod Circuit
