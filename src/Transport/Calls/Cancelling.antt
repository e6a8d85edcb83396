-- ===== src/Transport/Calls/Cancelling.antt =====
-- A call and the cancellation that asks for it.
use tool_smith.Base.Except.{Except}
use tool_smith.Json.{Json}
use tool_smith.Transport.{Transport}
