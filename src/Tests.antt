-- ===== src/Tests.antt =====
-- Concrete inputs, and what the theorems say of them.
mod Traces
mod Importing
mod Replaying
mod Payloads
mod Preparing
mod Executing
mod Mapping
mod Writing
mod Generating
mod Sessions
mod Stracing
mod Tracing
