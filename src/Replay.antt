-- ===== src/Replay.antt =====
-- internal/replay: sending recorded requests again.
pub mod Execution
pub mod Headers
pub mod Address
pub mod Response
pub mod Replacements
pub mod Attempt
pub mod Runner
