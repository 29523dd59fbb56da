-- ===== src/Storage/Metadata.antt =====
-- `validateBodyMetadata` and `bodyMetadata` of internal/storage/repository.go.
use graybox_core.Failure.{Error, failure, Result, ok, err}
use graybox_core.Prelude.{
  ℕ, ◌<◌, Bool, true, false, not, ◌&&◌, ◌≡◌, ◌↔◌, Option, none, some, arith, ltb, ◌==◌,
  if◌then◌else◌, length,
}
use graybox_core.Text.{Str, codes}

-- `validateBodyMetadata`; the numbers in its messages are left out.
unfoldable pub validate_body_metadata : Str → ℕ → ℕ → Bool → Option Error
validate_body_metadata content observed captured truncated =
    if not (captured == length content)
    then some (failure (codes "captured size does not match BLOB length"))
    else if ltb observed captured
    then some (failure (codes "observed size is smaller than captured size"))
    else if ltb captured observed && not truncated
    then some (failure (codes "body omits bytes but is not marked truncated"))
    else if observed == captured && truncated
    then some (failure (codes "body is marked truncated but omits no bytes"))
    else none

-- `bodyMetadata`
unfoldable pub body_metadata : Str → ℕ → Bool → Result ℕ
body_metadata content observed truncated =
    elim (validate_body_metadata content observed (length content) truncated) [
      | none ↦ ok (length content)
      | some e ↦ err e
    ]

-- A body of `captured` bytes fits its metadata: nothing is missing, or bytes are missing and the body
-- is marked truncated.
abbrev pub IsConsistent : ℕ → ℕ → Bool → Type 0
IsConsistent captured observed true = captured < observed
IsConsistent captured observed false = observed ≡ captured

validate_body_metadata_iff :
    (content : Str) (observed : ℕ) (truncated : Bool)
    → (validate_body_metadata content observed (length content) truncated ≡ none)
      ↔ IsConsistent (length content) observed truncated
unfolding validate_body_metadata
validate_body_metadata_iff content observed true = ground arith
validate_body_metadata_iff content observed false = ground arith

-- The metadata are accepted exactly when they are consistent, and the captured size is the body's.
pub body_metadata_iff :
    (content : Str) (observed : ℕ) (truncated : Bool)
    → (body_metadata content observed truncated ≡ ok (length content))
      ↔ IsConsistent (length content) observed truncated
unfolding body_metadata
body_metadata_iff content observed truncated =
    ground (arith, validate_body_metadata_iff content observed truncated)
