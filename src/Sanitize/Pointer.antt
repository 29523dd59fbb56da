-- ===== src/Sanitize/Pointer.antt =====
-- `Pointer` of internal/sanitize/fields.go: the tokens of a JSON Pointer.
pub mod RoundTrip
use graybox_core.Failure.{failure, Result, ok, err, ◌>>=◌}
use graybox_core.Prelude.{ℕ, Bool, true, false, not, ◌||◌, List, [], ◌∷◌, ◌==◌, if◌then◌else◌}
use graybox_core.Text.{Str, codes, replace_all, split_on}

-- The inner loop: is every `~` of the part followed by `0` or `1`?
unfoldable pub valid_escapes : Str → Bool
valid_escapes [] = true
valid_escapes (c ∷ []) = not (c == b'~')
valid_escapes (c ∷ d ∷ s) = elim (c == b'~') [
  | true ↦ if d == b'0' || d == b'1' then valid_escapes s else false
  | false ↦ valid_escapes (d ∷ s)
]

unfoldable pub unescape : Str → Str
unescape part =
    replace_all (replace_all part (b'~' ∷ b'1' ∷ []) (b'/' ∷ [])) (b'~' ∷ b'0' ∷ []) (b'~' ∷ [])

-- The loop over the parts.
unfoldable pub unescape_parts : List Str → Result (List Str)
unescape_parts [] = ok []
unescape_parts (part ∷ parts) =
    if valid_escapes part
    then (do rest ← unescape_parts parts; ok (unescape part ∷ rest))
    else err (failure (codes "invalid JSON Pointer escape"))

-- `Pointer`
unfoldable pub pointer : Str → Result (List Str)
pointer [] =
    err (failure (codes "JSON field path must be a non-root JSON Pointer beginning with /"))
pointer (c ∷ path) =
    if c == b'/'
    then unescape_parts (split_on b'/' path)
    else err (failure (codes "JSON field path must be a non-root JSON Pointer beginning with /"))
