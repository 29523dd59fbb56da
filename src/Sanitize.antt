-- ===== src/Sanitize.antt =====
-- internal/sanitize: redaction of recorded traffic.
pub mod Redact
pub mod Pointer
pub mod Rules
pub mod Fields
pub mod Capture
pub mod Markers
