-- ===== src/Device.antt =====
-- The authorisation of an account by the device flow
-- (backend/internal/domain/deviceauth/session.go, backend/internal/deviceauth/service.go).
pub mod Session
pub mod Poll
pub mod Lifecycle
