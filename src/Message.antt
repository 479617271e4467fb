-- ===== src/Message.antt =====
-- src/message: what the actors send one another. Times are nanoseconds of the steady clock.
pub mod Timeout
use modbus_gateway.Base.{ℕ, ◌+◌, ◌*◌, Bool, true, false, Option, some, ltb, leb, ◌^◌, if◌then◌else◌}

pub record ModbusMessageInfo : Type 0 where
  pub create_timestamp : ℕ
  pub timeout_reached : Bool
  pub source_id : ℕ
  pub transaction_id : ℕ

-- The constructor; `now` is the reading of the clock.
unfoldable pub make_info : ℕ → ℕ → ℕ → ModbusMessageInfo
make_info now source_id transaction_id = record {
  create_timestamp = now;
  timeout_reached = false;
  source_id = source_id;
  transaction_id = transaction_id;
}

-- `TimeoutReached`: the answer, and the message information with its cached flag.
unfoldable pub check_timeout : ℕ → ℕ → ModbusMessageInfo → Bool × ModbusMessageInfo
check_timeout timeout now info =
    if info.timeout_reached
    then (true, info)
    else if leb (info.create_timestamp + timeout) now
    then (true, record info { timeout_reached = true })
    else (info.timeout_reached, info)

-- `std::chrono::milliseconds` where nanoseconds are expected. A number from 2 ^ 63 on stands for a
-- negative count, which is over when it begins, as 0 is.
abbrev pub nanoseconds : ℕ → ℕ
nanoseconds ms = if ltb ms (2 ^ 63) then ms * 1_000_000 else 0

-- `none` is a null buffer pointer.
pub record ModbusMessage (Buf : Type 0) : Type 0 where
  pub info : ModbusMessageInfo
  pub buffer : Option Buf

-- The messages of the exchange; a `dynamic_pointer_cast` tells them apart.
pub data Message (Buf : Type 0) : Type 0 where
  modbus_message : ModbusMessage Buf → Message Buf
  client_disconnect : ℕ → Message Buf
