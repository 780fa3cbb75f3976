-- ===== src/Validate.antt =====
-- pkg/trace/validate.go: the trace validator.
pub mod Report
pub mod Fields
pub mod OpId
pub mod Header
pub mod Loop
pub mod Verdict
pub mod Tally
pub mod Step
pub mod Accept
pub mod Outcome
pub mod Callback
pub mod Order
pub mod Lifecycle
pub mod Silent
pub mod Schema
pub mod Counts
