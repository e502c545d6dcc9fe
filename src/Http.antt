-- ===== src/Http.antt =====
-- Requests and responses of the HTTP handlers, as far as the handlers look at them.
use guangyang.Prelude.{ℕ, Bool, List}
use guangyang.Text.{Str}
use guangyang.Domain.{Time, Yuan}

-- r.Method
pub data Method : Type 0 where
  options get post : Method
  other : Str → Method

-- A value of a JSON object.
pub data Value : Type 0 where
  text : Str → Value
  flag : Bool → Value
  time : Time → Value
  amount : Yuan → Value

pub data Response : Type 0 where
  no_content : Response  -- WriteHeader(StatusNoContent)
  http_error : ℕ → Str → Response  -- http.Error
  missing : Response  -- http.NotFound
  json : ℕ → List (Str × Value) → Response  -- writeJSON
  redirect : Str → Response  -- http.Redirect, status 302
  serve_file : Str → Response  -- http.ServeFile
