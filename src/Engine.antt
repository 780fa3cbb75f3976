-- ===== src/Engine.antt =====
-- pkg/engine.
pub mod Types
pub mod Mem
