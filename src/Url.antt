-- ===== src/Url.antt =====
-- The fields of `url.URL` that Graybox reads or writes.
use graybox_core.Prelude.{Bool}
use graybox_core.Text.{Str}

pub record Url : Type 0 where
  pub scheme : Str
  pub user : Bool
  pub host : Str
  pub path : Str
  pub raw_path : Str
  pub raw_query : Str
  pub force_query : Bool
  pub fragment : Str
