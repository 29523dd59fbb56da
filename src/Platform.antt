-- ===== src/Platform.antt =====
-- What Graybox calls in Go's standard library to read and write JSON, URLs, forms and media types.
-- The model takes these calls as they come: each is a field, and a definition that makes such a call
-- takes the record.
use graybox_core.Dict.{Dict}
use graybox_core.Failure.{Result}
use graybox_core.Json.Codec.{Codec}
use graybox_core.Json.{Json}
use graybox_core.Prelude.{Bool, List, Option}
use graybox_core.Text.{Str}
use graybox_core.Url.{Url}

-- `url.Values`
abbrev pub Values : Type 0
Values = Dict (List Str)

pub record Platform : Type 0 where
  -- json.Valid and Decoder.Decode with UseNumber.
  pub json : Codec
  -- The tokens of Decoder.Token as a tree, every member of every object in its order.
  pub json_tree : Str → Option Json
  -- json.Unmarshal into map[string]json.RawMessage, []json.RawMessage and string.
  pub unmarshal_object : Str → Option (Dict Str)
  pub unmarshal_array : Str → Option (List Str)
  pub unmarshal_string : Str → Option Str
  -- json.Encoder without HTML escapes, the final newline cut off.
  pub marshal_object : Dict Str → Result Str
  pub marshal_array : List Str → Result Str
  pub marshal_string : Str → Str
  -- utf8.Valid
  pub utf8_valid : Str → Bool
  -- mime.ParseMediaType: the media type, and whether there was no error.
  pub media_type : Str → Str × Bool
  -- url.ParseQuery, Values.Encode, url.Parse, URL.String and URL.EscapedPath.
  pub parse_query : Str → Result Values
  pub encode_query : Values → Str
  pub parse_url : Str → Result Url
  pub url_string : Url → Str
  pub escaped_path : Url → Str
