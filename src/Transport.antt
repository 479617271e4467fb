-- ===== src/Transport.antt =====
-- What the actors of src/transport ask of asio and of the exchange, and the operations that are
-- outstanding. A handler returns the actor's new state and the effects that it caused, in order.
pub mod Counts
pub mod Expiry
pub mod Keys
pub mod Overlap
pub mod Traffic
use modbus_gateway.Base.{ℕ, suc, ◌+◌, Bool, List, [], ◌∷◌, if◌then◌else◌}
use modbus_gateway.Message.{ModbusMessage, Message, modbus_message, check_timeout, nanoseconds}

pub data Effect (Buf : Type 0) : Type 0 where
  -- async_connect, async_accept
  start_connect start_accept : Effect Buf
  -- async_send or async_write_some of the frame, with its size
  start_send : Buf → ℕ → Effect Buf
  -- async_receive or async_read_some into a new buffer, with its capacity
  start_receive : Buf → ℕ → Effect Buf
  -- expires_after and async_wait, in milliseconds; cancel of the timer
  start_wait : ℕ → Effect Buf
  cancel_timer : Effect Buf
  -- cancel and close of the socket, the serial port or the acceptor
  cancel_io close_io : Effect Buf
  -- exchange->Send
  deliver : ℕ → Message Buf → Effect Buf
  -- a read through a null buffer pointer, or past the end of an array
  undefined_behaviour : Effect Buf
  -- an exception leaves the handler, and context->run(), which ends the program
  escapes : Effect Buf

-- The operations that were started and have not called their handler yet.
pub record Pending : Type 0 where
  pub connects : ℕ
  pub accepts : ℕ
  pub sends : ℕ
  pub receives : ℕ
  pub waits : ℕ

abbrev pub idle_pending : Pending
idle_pending = record { connects = 0; accepts = 0; sends = 0; receives = 0; waits = 0 }

-- The outstanding operations after the effects.
abbrev pub issue : {Buf : Type 0} → List (Effect Buf) → Pending → Pending
issue [] p = p
issue (start_connect ∷ es) p = issue es (record p { connects = p.connects + 1 })
issue (start_accept ∷ es) p = issue es (record p { accepts = p.accepts + 1 })
issue (start_send b n ∷ es) p = issue es (record p { sends = p.sends + 1 })
issue (start_receive b n ∷ es) p = issue es (record p { receives = p.receives + 1 })
issue (start_wait ms ∷ es) p = issue es (record p { waits = p.waits + 1 })
issue (_ ∷ es) p = issue es p

-- The messages that were sent to the exchange, with the ids they were sent to.
abbrev pub delivered : {Buf : Type 0} → List (Effect Buf) → List (ℕ × Message Buf)
delivered [] = []
delivered (deliver i m ∷ es) = (i, m) ∷ delivered es
delivered (_ ∷ es) = delivered es

-- The frames that are sent, without the other effects.
abbrev pub frames : {Buf : Type 0} → List (Effect Buf) → List (Effect Buf)
frames [] = []
frames (start_send b size ∷ es) = start_send b size ∷ frames es
frames (_ ∷ es) = frames es

-- How many frames were sent.
abbrev pub sends_of : {Buf : Type 0} → List (Effect Buf) → ℕ
sends_of [] = 0
sends_of (start_send b n ∷ es) = suc (sends_of es)
sends_of (_ ∷ es) = sends_of es

-- How many requests were handed on; one with a unit id past the end of the table counts too.
abbrev pub requests_of : {Buf : Type 0} → List (Effect Buf) → ℕ
requests_of [] = 0
requests_of (deliver i (modbus_message m) ∷ es) = suc (requests_of es)
requests_of (undefined_behaviour ∷ es) = suc (requests_of es)
requests_of (_ ∷ es) = requests_of es

-- The loop of ModbusTcpClient::StartMessageTaskUnsafe and ModbusRtuMaster::QueueProcessUnsafe that
-- pops the messages in front that have reached the timeout. The clock is read for each of them:
-- `clock i` is the i-th reading.
unfoldable pub drop_expired :
    {Buf : Type 0} → ℕ → (ℕ → ℕ) → List (ModbusMessage Buf) → List (ModbusMessage Buf)
unfolding check_timeout
drop_expired timeout clock [] = []
drop_expired timeout clock (m ∷ ms) =
    let checked = check_timeout (nanoseconds timeout) (clock 0) m.info in
    let rest = drop_expired timeout (λ i. clock (suc i)) ms in
    if checked.0 then rest else record m { info = checked.1 } ∷ ms
