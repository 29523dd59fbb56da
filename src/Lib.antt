-- ===== src/Lib.antt =====
-- Graybox records HTTP traffic and compares what a service answers later with the recording. This
-- library models its core and proves what the comparison means.
--
-- The parts, and how they meet:
-- * Recording (internal/recording/recording.go): exchanges, requests and responses as records.
-- * Diff (internal/diff): Diff/Location (location.go: Location, AppendJSONPointer, Rules.Ignores),
--   Diff/Domain (domain.go: Difference, Outcome, Report.Summary), Diff/Number (body.go:
--   jsonNumbersEqual, canonicalizeJSONNumber), Diff/Body (body.go: compareBody) with Diff/Body/Values
--   (compareJSONValues and its object and array loops), Diff/Headers (compare.go: compareHeaders,
--   normalizeHeaders), Diff/Compare (compare.go: Compare, compareStatus), Diff/Runner (runner.go:
--   Run, compareExecution).
-- * Replay (internal/replay/replay.go): Replay/Execution holds the executions that a diff run
--   compares, and the Replayer interface through which they reach it, with a visitor's captured
--   variables as explicit state. Replay/Address models BuildURL and joinPath, Replay/Headers
--   copyReplayHeaders and applyRequestHeaderOverrides, Replay/Response responseBodyCapture and
--   captureResponseBody, Replay/Replacements Applicable and, in its child Applied, apply and
--   rejectRemainingMarkers (replacements.go), Replay/Attempt execute and Replay/Runner runEach, which is the replayer of a diff run (Diff/Runner/Recorded).
-- * Sanitize (internal/sanitize): Sanitize/Redact (redact.go), and of fields.go Sanitize/Rules (Rules,
--   ApplyHeaders, Merge), Sanitize/Pointer (Pointer), Sanitize/Fields (ReplaceJSON, replaceJSON,
--   ExistingJSON, validJSON), Sanitize/Capture (ReplaceValues, ExistingValues, URL, Body, CaptureBody,
--   QueryWithheld); Sanitize/Markers is comparison.go. Replay takes its marker for values that must
--   not be sent, and Diff for bodies that cannot be compared.
-- * Capture (internal/capture/proxy.go): Capture/Reader (captureReadCloser), Capture/Writer
--   (captureWriter, with the client's writer as the log of its calls) and Capture/Proxy (the error
--   handler, the deferred function of ServeHTTP, persistExchange). Their states are those that any
--   sequence of reads and of calls of the writer reaches.
-- * Storage (internal/storage/repository.go): Storage/Metadata models validateBodyMetadata and
--   bodyMetadata, which every recorded body passes, redacted or not.
-- * Cli (internal/cli): Cli/Exit (root.go: the exit codes, classifyError; diff.go: diffExitCode),
--   Cli/Ignore (diff.go: buildDiffRules, parseDiffIgnoreLocation, validJSONPointer,
--   diffResponseBodyLimit), Cli/Target (target.go), Cli/SecretHeaders (secret_headers.go:
--   parseSecretHeaderMappings and the checks on names and values), Cli/Config (config.go:
--   environmentReference, resolveRequestConfig; in its child Valid validateConfig and
--   recordingRedaction) and Cli/Redactor (secret_headers.go: secretRedactor)
--   with its children Output (redactJSON) and Data (redactData). Cli/Config gives the secrets of which
--   Cli/Redactor builds its forms, and Cli/Ignore the rules that Diff takes.
-- * Config (internal/config/config.go): validNode and Parse; the configuration itself stands in
--   Cli/Config.
-- * Text, Sort, Dict, Json and Failure hold what the source takes from Go: strings as lists of bytes,
--   sort, maps with string keys as association lists whose order stands for the iteration order, the
--   values that encoding/json decodes into `any`, and errors as values.
--
-- Conventions. Sizes, durations and status codes are natural numbers; `big.Int` is ℤ. Letter case and
-- white space are those of ASCII, which is what header names and number tokens consist of. A Go
-- function that returns a value and an error is a pair of the value and an optional error. Recursion
-- is structural everywhere but for the digits of a number, where the fuel is the number plus one.
--
-- Parameters: `Codec` stands for json.Valid and the JSON decoder, `sha256` for sha256.Sum256. `Platform`
-- stands for the calls of encoding/json, net/url, mime and unicode/utf8 with which the sanitizer,
-- the replay and the proxy read and write bodies and URLs, `HttpClient` for http.NewRequest and
-- Client.Do, `Source` for the recording that is read, which a run does not change, `Network` for net
-- and URL.Hostname, `Environment` for os.LookupEnv, `Yaml` for the YAML decoders, `Spellings` and
-- `StringReader` for url.QueryEscape, url.PathEscape and encoding/json on strings; no theorem assumes
-- anything of these but that json.Valid accepts the two number tokens or the JSON output at hand, and
-- that encoding/json reads the strings of that output and what it writes for their redactions.
--
-- Not modelled: flag parsing and terminal output, the preflight of a configuration's replacements,
-- the compact results of Runner.Run, the SQL of the storage, and net/http itself. Of a URL, user
-- information is a Boolean, whether there is any, and RawFragment and Opaque are left out.
-- captureWriter.Unwrap is left out: a connection that is taken over for an upgraded protocol, which
-- Graybox does not support, goes past the writer.
pub mod Prelude
pub mod Text
pub mod Sort
pub mod Dict
pub mod Json
pub mod Failure
pub mod Recording
pub mod Url
pub mod Platform
pub mod Replay
pub mod Capture
pub mod Cli
pub mod Config
pub mod Diff
pub mod Storage
pub mod Sanitize
mod Tests
