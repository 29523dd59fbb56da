-- ===== src/Sanitize/Capture/Sizes.antt =====
-- What `CaptureBody` keeps of the recording's invariants, and when a body is withheld.
use graybox_core.Platform.{Platform}
use graybox_core.Failure.{ok}
use graybox_core.Prelude.{ℕ, Bool, true, false, not, ◌&&◌, ◌≡◌, ◌≢◌, ◌⊎◌, [], arith, length}
use graybox_core.Recording.{Headers}
use graybox_core.Sanitize.Capture.{
  get_header, has_body_rules, redact_body, sanitized_size, capture_body,
}
use graybox_core.Sanitize.Redact.{redacted_value}
use graybox_core.Sanitize.Rules.{Rules}
use graybox_core.Storage.Metadata.{IsConsistent, body_metadata, body_metadata_iff}
use graybox_core.Text.Laws.{equal_iff}
use graybox_core.Text.{Str, codes}

sanitized_size-IsConsistent :
    (content sanitized : Str) (observed : ℕ) (truncated : Bool)
    → IsConsistent (length content) observed truncated
    → IsConsistent
        (length sanitized)
        (sanitized_size content sanitized observed truncated)
        truncated
unfolding sanitized_size
sanitized_size-IsConsistent content sanitized observed true h =
    ground (arith, equal_iff content sanitized)
sanitized_size-IsConsistent content sanitized observed false h =
    ground (arith, equal_iff content sanitized)

-- Redacting a body whose metadata the storage accepts gives a body whose metadata it accepts.
pub capture_body-body_metadata :
    (go : Platform) (r : Rules) (content : Str) (headers : Headers) (observed : ℕ)
    (truncated complete : Bool)
    → body_metadata content observed truncated ≡ ok (length content)
    → body_metadata
        (capture_body go r content headers observed truncated complete).0
        (capture_body go r content headers observed truncated complete).1
        truncated
      ≡ ok (length (capture_body go r content headers observed truncated complete).0)
unfolding capture_body
capture_body-body_metadata go r content headers observed truncated complete h =
    let sanitized = redact_body go r content headers (complete && not truncated) in
    (body_metadata_iff sanitized (sanitized_size content sanitized observed truncated) truncated).1
      (sanitized_size-IsConsistent content sanitized observed truncated
        ((body_metadata_iff content observed truncated).0 h))

-- Where body rules are configured, a body that is not complete or that is encoded is withheld.
pub redact_body-withheld :
    (go : Platform) (r : Rules) (content : Str) (headers : Headers) (complete : Bool)
    → has_body_rules r ≡ true
    → content ≢ []
    → (complete ≡ false) ⊎ (get_header (codes "Content-Encoding") headers ≢ [])
    → redact_body go r content headers complete ≡ redacted_value
unfolding redact_body
redact_body-withheld go r content headers complete b n h =
    ground
      (arith, equal_iff content [], equal_iff (get_header (codes "Content-Encoding") headers) [])
