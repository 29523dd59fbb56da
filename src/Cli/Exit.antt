-- ===== src/Cli/Exit.antt =====
-- internal/cli: the exit codes of the commands (root.go: the constants, classifyError; diff.go:
-- diffExitCode).
pub mod Diffs
use graybox_core.Diff.Domain.{Report, Tally, summary}
use graybox_core.Failure.{
  Error, failure, wrap, body_unavailable, usage, not_found, invalid_recording, unsupported_schema,
  help,
}
use graybox_core.Prelude.{ℕ, Bool, true, false, ◌||◌, ltb, if◌then◌else◌}

abbrev pub exit_success : ℕ
exit_success = 0

abbrev pub exit_behavior_changed : ℕ
exit_behavior_changed = 1

abbrev pub exit_invalid_recording : ℕ
exit_invalid_recording = 2

abbrev pub exit_comparison_failed : ℕ
exit_comparison_failed = 3

abbrev pub exit_usage : ℕ
exit_usage = 4

abbrev pub exit_internal : ℕ
exit_internal = 5

-- `diffExitCode`
unfoldable pub diff_exit_code : Report → ℕ
diff_exit_code report =
    let counted = summary report in
    if ltb 0 counted.failed
    then exit_comparison_failed
    else if ltb 0 counted.changed
    then exit_behavior_changed
    else exit_success

-- `errors.As(err, &usage) || errors.Is(err, flag.ErrHelp)`
unfoldable pub is_usage : Error → Bool
is_usage (failure m) = false
is_usage (wrap m e) = is_usage e
is_usage (body_unavailable b) = false
is_usage (usage m) = true
is_usage not_found = false
is_usage invalid_recording = false
is_usage unsupported_schema = false
is_usage help = true

-- `errors.Is(err, storage.ErrInvalidRecording)`
unfoldable pub is_invalid_recording : Error → Bool
is_invalid_recording (failure m) = false
is_invalid_recording (wrap m e) = is_invalid_recording e
is_invalid_recording (body_unavailable b) = false
is_invalid_recording (usage m) = false
is_invalid_recording not_found = false
is_invalid_recording invalid_recording = true
is_invalid_recording unsupported_schema = false
is_invalid_recording help = false

-- `errors.Is(err, storage.ErrUnsupportedSchema)`
unfoldable pub is_unsupported_schema : Error → Bool
is_unsupported_schema (failure m) = false
is_unsupported_schema (wrap m e) = is_unsupported_schema e
is_unsupported_schema (body_unavailable b) = false
is_unsupported_schema (usage m) = false
is_unsupported_schema not_found = false
is_unsupported_schema invalid_recording = false
is_unsupported_schema unsupported_schema = true
is_unsupported_schema help = false

-- `classifyError`
unfoldable pub classify_error : Error → ℕ
unfolding is_usage is_invalid_recording is_unsupported_schema
classify_error e =
    if is_usage e
    then exit_usage
    else if is_invalid_recording e || is_unsupported_schema e
    then exit_invalid_recording
    else exit_internal
