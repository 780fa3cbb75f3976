-- ===== src/Gen.antt =====
-- pkg/gen: generators of synthetic traces.
pub mod Checkpoint
