-- ===== src/Client.antt =====
-- Client keys: who may call which model, and how often at once
-- (backend/internal/domain/clientkey/clientkey.go, backend/internal/service/client_access.go).
pub mod Key
pub mod Access
pub mod Permits
pub mod Models
pub mod Scopes
