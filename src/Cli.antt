-- ===== src/Cli.antt =====
-- internal/cli: what the commands check before they run, and how they end.
pub mod Exit
pub mod Target
pub mod Ignore
pub mod SecretHeaders
pub mod Config
pub mod Redactor
