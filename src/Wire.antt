-- ===== src/Wire.antt =====
-- The streams of documents that client and server exchange over HTTP: what the client sends
-- (src/leap/soledad/client/http_target/support.py and send_protocol.py), what the server reads and
-- answers (src/leap/soledad/server/__init__.py, src/leap/soledad/common/l2db/remote/http_app.py), and what
-- the client reads (src/leap/soledad/client/http_target/fetch_protocol.py).
pub mod Lines
pub mod Receiver
pub mod Chunks
pub mod Responder
pub mod Streamed
pub mod Fetch
pub mod Body
pub mod Reader
pub mod Invocation
pub mod Stripped
pub mod Upload
use leap_soledad.Prelude.{
  ℕ, ◌+◌, ◌-◌, Bool, true, false, Option, none, some, List, [], ◌∷◌, ◌++◌, Text, text, length, take,
  drop, min, ◌==◌, if◌then◌else◌, not,
}
use leap_soledad.Json.{Value, Python}

-- `utils.check_and_strip_comma`
unfoldable pub check_and_strip_comma : Text → Text × Bool
check_and_strip_comma [] = ([], false)
check_and_strip_comma (c ∷ []) = if c == b',' then ([], true) else (c ∷ [], false)
check_and_strip_comma (c ∷ d ∷ line) =
    let (rest, comma) = check_and_strip_comma (d ∷ line) in (c ∷ rest, comma)
