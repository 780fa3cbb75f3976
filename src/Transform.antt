-- ===== src/Transform.antt =====
-- pkg/transform: declared changes to a trace.
pub mod SplitReads
