-- ===== src/Api.antt =====
-- The HTTP service (api/): what a route answers. An answer of FastAPI is a value, an HTTPException with
-- its status code and detail, or another exception, which the client sees as a 500. How Python prints a
-- value that is no text, str(v), is an argument.
pub mod Settings
pub mod Stored
pub mod Masked
pub mod Jobs
pub mod RunNow
pub mod Offered
pub mod Checked
pub mod Kpis
pub mod Manual
mod Tests
use bifrost_platform_plugin.Common.{ℕ, List, [], ◌∷◌, Option, none, some}
use bifrost_platform_plugin.Common.Text.{Text, strip}
use bifrost_platform_plugin.Common.Json.{Json, null, bool, num, str, arr, obj}
use bifrost_platform_plugin.Common.Result.{Exception, Result, ok, raise}

pub data HttpReply {κ} (Value : Type κ) : Type κ where
  answer : Value → HttpReply Value
  http_exception : ℕ → Text → HttpReply Value
  server_error : Exception → HttpReply Value

-- str(v), where `print` prints what is no text
abbrev pub str_value : (Json → Text) → Json → Text
str_value print (str s) = s
str_value print v = print v
