-- ===== src/Tests.antt =====
-- Runs of the model on small inputs, and the theorems at inputs that meet their hypotheses.
mod DiffRuns
mod SanitizeRuns
mod ReplayRuns
mod Fixtures
mod CaptureRuns
mod RunnerRuns
mod CliRuns
