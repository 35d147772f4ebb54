-- ===== src/Admin.antt =====
-- Administrators: their accounts, refresh sessions and login attempts
-- (backend/internal/domain/adminauth/adminauth.go).
pub mod Session
pub mod Rotation
pub mod User
pub mod Store
pub mod Limit
pub mod Service
pub mod Admission
pub mod Replay
pub mod Answers
pub mod Once
pub mod Entry
