-- ===== src/Importer/Dftracer.antt =====
-- pkg/importer/dftracer: the importer of DFTracer's events.
pub mod Events
pub mod Handlers
pub mod Passes
pub mod Keeps
pub mod Lifecycles
