-- ===== src/Importer.antt =====
-- pkg/importer: what the importers of other trace formats share.
pub mod FdTable
pub mod Builder
pub mod Strace
pub mod Tracked
pub mod Checked
pub mod Flags
pub mod Ops
pub mod Dftracer
