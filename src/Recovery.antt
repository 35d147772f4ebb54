-- ===== src/Recovery.antt =====
-- The recovery of parked accounts (backend/internal/runtime/recovery.go): a tick of passes over the
-- accounts that the store lists.
pub mod Base
pub mod Batch
pub mod Walk
pub mod Isolate
pub mod Quota
pub mod Validating
pub mod Credentials
pub mod Tick
pub mod Keeping
pub mod Renewing
pub mod Passes
pub mod Oldest
pub mod Drain
pub mod Window
pub mod Quarantine
