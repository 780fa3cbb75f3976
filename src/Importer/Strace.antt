-- ===== src/Importer/Strace.antt =====
-- pkg/importer/strace: the importer of what strace prints.
pub mod Scan
pub mod Quoted
pub mod Parser
pub mod Calls
pub mod Times
pub mod Lines
pub mod Keeps
pub mod Lifecycles
pub mod Imported
