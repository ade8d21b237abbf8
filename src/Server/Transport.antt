-- ===== src/Server/Transport.antt =====
-- server/src/moq/transport.rs: the adapter that gives MoQ its streams over the session's connection.
pub mod Recv
pub mod Slots
pub mod Whole
pub mod Pump
use webshooter.Base.{ℕ, ◌^◌, Option, none, some, ltb, if◌then◌else◌}
use webshooter.Base.Text.{Text}

abbrev pub h3_datagram_error : ℕ
h3_datagram_error = 0x33

abbrev pub h3_stream_creation_error : ℕ
h3_stream_creation_error = 0x103

abbrev pub h3_message_error : ℕ
h3_message_error = 0x10e

pub data Error : Type 0 where
  closed : Text → Error
  stream : ℕ → Text → Error
  datagram : ℕ → Text → Error

-- `u32::try_from(code).unwrap_or(H3_MESSAGE_ERROR)`
unfoldable pub h3_code : ℕ → ℕ
h3_code code = if ltb code (2 ^ 32) then code else h3_message_error

unfoldable pub session_code : Error → Option ℕ
session_code (stream code reason) = some code
session_code (closed reason) = none
session_code (datagram code reason) = none

unfoldable pub stream_error : Error → Option ℕ
stream_error (stream code reason) = some code
stream_error (datagram code reason) = some code
stream_error (closed reason) = none
