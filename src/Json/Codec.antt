-- ===== src/Json/Codec.antt =====
-- What Graybox uses of encoding/json to read: `json.Valid`, and `Decoder.Decode` with UseNumber.
use graybox_core.Json.{Json}
use graybox_core.Prelude.{Bool, Option}
use graybox_core.Text.{Str}

pub record Codec : Type 0 where
  pub valid : Str → Bool
  pub decode : Str → Option Json
