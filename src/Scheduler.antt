-- ===== src/Scheduler.antt =====
-- backend/internal/scheduler/scheduler.go: which account serves a request.
pub mod State
pub mod Hot
pub mod Select
pub mod Status
pub mod Acquire
pub mod Lease
pub mod Manage
pub mod Cooldown
pub mod Invariant
pub mod Choice
pub mod Reach
pub mod Accounting
pub mod Ledger
pub mod Limits
