-- ===== src/Asio.antt =====
-- The outcomes of an asynchronous operation of asio, a library that the program only calls:
-- `std::error_code` as far as the handlers of src/transport tell its values apart.
use modbus_gateway.Base.{Option, Bool, true, false}

pub data ErrorCode : Type 0 where
  operation_aborted eof connection_reset other : ErrorCode

-- What a completion handler is called with; `none` is success, where `ec` converts to `false`.
abbrev pub Completion : Type 0
Completion = Option ErrorCode

-- Whether the peer of a new connection is there when handlers ask the socket for it: `remote_endpoint`
-- throws if it is not. It stays, or has left when the handler asks first, or leaves before it asks again.
pub data Peer : Type 0 where
  stays left leaves : Peer

-- `asio::error::operation_aborted == ec`
abbrev pub is_aborted : ErrorCode → Bool
is_aborted operation_aborted = true
is_aborted _ = false

-- `(error::eof == ec) || (error::connection_reset == ec) || (error::operation_aborted == ec)`
abbrev pub is_cancelled : ErrorCode → Bool
is_cancelled other = false
is_cancelled _ = true
