-- ===== src/Payload.antt =====
-- pkg/payload/payload.go.
pub mod Fill
pub mod Reference
pub mod Length
