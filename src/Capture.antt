-- ===== src/Capture.antt =====
-- internal/capture/proxy.go: the recording reverse proxy.
pub mod Kept
pub mod Reader
pub mod Writer
pub mod Proxy
