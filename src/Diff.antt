-- ===== src/Diff.antt =====
-- internal/diff: behavioral comparison of a recorded response with a replayed one.
pub mod Location
pub mod Domain
pub mod Number
pub mod Body
pub mod Headers
pub mod Compare
pub mod Runner
