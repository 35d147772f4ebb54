-- ===== src/Admin/Store.antt =====
-- The administrators' tables and the statements on them
-- (backend/internal/infra/persistence/sqlite/adminauth.go).
pub mod Times
pub mod Tables
pub mod Attempts
pub mod Reservations
pub mod Sessions
pub mod Rotations
