-- ===== src/Admin/Service.antt =====
-- The sign-in of administrators (backend/internal/adminauth/service.go).
pub mod Base
pub mod Login
pub mod Refresh
