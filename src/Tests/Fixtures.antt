-- ===== src/Tests/Fixtures.antt =====
-- Library calls and policies that the runs share.
use graybox_core.Failure.{ok}
use graybox_core.Json.{null}
use graybox_core.Platform.{Platform}
use graybox_core.Prelude.{true, false, [], ◌∷◌, some}
use graybox_core.Sanitize.Rules.{Rules}
use graybox_core.Text.{codes}

-- Every URL is its path, every form is empty, and every media type is taken as it is.
abbrev pub plain_platform : Platform
plain_platform = record {
  json = record { valid = λ s. true; decode = λ s. some null };
  json_tree = λ s. some null;
  unmarshal_object = λ s. some [];
  unmarshal_array = λ s. some [];
  unmarshal_string = λ s. some s;
  marshal_object = λ m. ok [];
  marshal_array = λ m. ok [];
  marshal_string = λ s. s;
  utf8_valid = λ s. true;
  media_type = λ s. (s, true);
  parse_query = λ s. ok [];
  encode_query = λ m. [];
  parse_url = λ s. ok (record {
    scheme = codes "http";
    user = false;
    host = codes "h";
    path = s;
    raw_path = [];
    raw_query = [];
    force_query = false;
    fragment = [];
  });
  url_string = λ u. u.path;
  escaped_path = λ u. u.path;
}

abbrev pub no_policy : Rules
no_policy = record { headers = []; json = []; query = []; form = [] }

abbrev pub header_policy : Rules
header_policy = record { headers = codes "X-Key" ∷ []; json = []; query = []; form = [] }
