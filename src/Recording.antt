-- ===== src/Recording.antt =====
-- internal/recording/recording.go: the transport-independent model of a recording. Times and
-- durations are counts of nanoseconds.
use graybox_core.Dict.{Dict}
use graybox_core.Prelude.{ℕ, Bool, List}
use graybox_core.Text.{Str}

-- `http.Header`
abbrev pub Headers : Type 0
Headers = Dict (List Str)

pub record Request : Type 0 where
  pub method : Str
  pub url : Str
  pub headers : Headers
  pub body : Str
  pub observed_size : ℕ
  pub truncated : Bool
  pub complete : Bool

pub record Response : Type 0 where
  pub status_code : ℕ
  pub headers : Headers
  pub body : Str
  pub observed_size : ℕ
  pub truncated : Bool
  pub complete : Bool

pub record Exchange : Type 0 where
  pub id : ℕ
  pub protocol : Str
  pub started_at : ℕ
  pub ended_at : ℕ
  pub duration : ℕ
  pub proxy_error : Str
  pub request : Request
  pub response : Response

pub record Filter : Type 0 where
  pub status : ℕ
  pub method : Str
  pub path : Str

pub record Summary : Type 0 where
  pub id : ℕ
  pub protocol : Str
  pub method : Str
  pub url : Str
  pub status_code : ℕ
  pub started_at : ℕ
  pub duration : ℕ
