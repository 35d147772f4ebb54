-- ===== src/Upstream.antt =====
-- backend/internal/upstream/classifier.go: what a response of the upstream says of the account.
pub mod Json
pub mod Numbers
pub mod Headers
pub mod Classify
pub mod Verdict
