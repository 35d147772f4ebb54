-- ===== src/Tests.antt =====
-- The theorems at concrete inputs: one file of examples for each part.
pub mod Fixtures
pub mod Account
pub mod Scheduler
pub mod Upstream
pub mod Gateway
pub mod Sticky
pub mod Client
pub mod Admin
pub mod Recovery
pub mod SignIn
pub mod Device
