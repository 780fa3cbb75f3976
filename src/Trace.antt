-- ===== src/Trace.antt =====
-- pkg/trace: the trace's data (types.go) and its line reader (jsonl.go).
pub mod Types
pub mod Reader
