-- ===== src/RtuSlave.antt =====
-- transport/modbus_rtu_slave.cpp and its header: the slave on a serial line. Its handlers run while
-- the actor exists; after its deletion a handler only returns.
pub mod Responses
pub mod Routed
pub mod Threads
pub mod World
use modbus_gateway.Base.{
  ℕ, Bool, true, false, ◌&&◌, Option, none, some, List, [], ◌∷◌, ◌==◌, if◌then◌else◌,
}
use modbus_gateway.Asio.{ErrorCode, Completion, is_cancelled}
use modbus_gateway.Modbus.{Modbus, FrameType, increment}
use modbus_gateway.Router.{Router, route}
use modbus_gateway.Message.{
  ModbusMessageInfo, ModbusMessage, Message, modbus_message, client_disconnect, make_info,
}
use modbus_gateway.Transport.{
  Effect, start_send, start_receive, cancel_io, deliver, undefined_behaviour,
}

-- The members but for the serial port and the router. `request_info` is the value in
-- `syncRequestInfo_`, which is read and written under its mutex.
pub record RtuSlave : Type 0 where
  pub id : ℕ
  pub frame_type : FrameType
  pub id_generator : ℕ
  pub request_info : Option ModbusMessageInfo

-- The constructor, once the serial port is open; `id` is exchange::defaultId.
unfoldable pub make_rtu_slave : ℕ → FrameType → RtuSlave
make_rtu_slave id frame_type = record {
  id = id;
  frame_type = frame_type;
  id_generator = 0;
  request_info = none;
}

unfoldable pub set_id : ℕ → RtuSlave → RtuSlave
set_id id c = record c { id = id }

module _ {Buf : Type 0} (modbus : Modbus Buf) where
  abbrev pub Outcome : Type 0
  Outcome = RtuSlave × List (Effect Buf)

  -- StartReadTask up to its handler.
  abbrev pub start_read_task : RtuSlave → Effect Buf
  start_read_task c =
      let fresh = modbus.make_buffer c.frame_type in start_receive fresh (modbus.get_adu_size fresh)

  unfoldable pub start : RtuSlave → Outcome
  start c = (c, start_read_task c ∷ [])

  unfoldable pub stop : RtuSlave → Outcome
  stop c = (c, cancel_io ∷ [])

  -- GetNextId
  abbrev pub next_id : RtuSlave → ℕ
  next_id c = increment modbus.transaction_id_limit c.id_generator

  -- MakeRequest: a transaction id is used up only for a valid frame.
  unfoldable pub make_request : ℕ → Buf → ℕ → RtuSlave → Option (ModbusMessage Buf) × RtuSlave
  unfolding make_info
  make_request now b size c =
      let sized = modbus.set_adu_size size b in
      let request : ModbusMessage Buf = record {
        info = make_info now c.id (next_id c);
        buffer = some sized.1;
      } in
      if sized.0
      then if modbus.check_no_error sized.1
        then (some request, record c { id_generator = next_id c })
        else (none, c)
      else (none, c)

  -- The message is sent to the actor that the unit id is routed to.
  abbrev route_message : Router → Buf → Message Buf → RtuSlave → List (Effect Buf)
  route_message router b m c = elim (route router (modbus.get_unit_id b)) [
    | none ↦ undefined_behaviour ∷ []
    | some actor_id ↦ deliver actor_id m ∷ start_read_task c ∷ []
  ]

  -- The handler of async_read_some from the result of MakeRequest on.
  accept_request : Router → Option (ModbusMessage Buf) → RtuSlave → Outcome
  accept_request router none c = (c, start_read_task c ∷ [])
  accept_request router (some m) c = (
    record c { request_info = some m.info },
    elim m.buffer [
      | none ↦ undefined_behaviour ∷ []
      | some b ↦ route_message router b (modbus_message m) c
    ],
  )

  -- The handler of async_read_some, where the operation has filled the buffer; `alive` is whether
  -- the exchange still exists.
  unfoldable pub on_read : Router → Bool → Completion → Buf → ℕ → ℕ → RtuSlave → Outcome
  unfolding accept_request
  on_read router false ec b size now c = (c, [])
  on_read router true (some ec) b size now c =
      if is_cancelled ec then (c, []) else (c, start_read_task c ∷ [])
  on_read router true none b size now c =
      let (request, c') = make_request now b size c in accept_request router request c'

  -- The response as it is written: converted and updated.
  abbrev pub response_frame : RtuSlave → Buf → Buf
  response_frame c b = modbus.update (modbus.convert_to c.frame_type b)

  -- MakeResponse for the last request's information.
  match_response : ModbusMessage Buf → ModbusMessageInfo → RtuSlave → Option Buf × RtuSlave
  match_response m last c =
      if last.transaction_id == m.info.transaction_id
      then (
        elim m.buffer [ none ↦ none | some b ↦ some (response_frame c b) ],
        record c { request_info = none },
      )
      else (none, c)

  unfoldable pub make_response : ModbusMessage Buf → RtuSlave → Option Buf × RtuSlave
  unfolding match_response
  make_response m c =
      if c.id == m.info.source_id
      then (elim c.request_info [ none ↦ (none, c) | some last ↦ match_response m last c ])
      else (none, c)

  abbrev pub write_frame : Option Buf → List (Effect Buf)
  write_frame none = []
  write_frame (some b) = start_send b (modbus.get_adu_size b) ∷ []

  -- Receive and StartWriteTask.
  unfoldable pub receive : Message Buf → RtuSlave → Outcome
  receive (modbus_message m) c = let (frame, c') = make_response m c in (c', write_frame frame)
  receive (client_disconnect i) c = (c, [])

  -- The handler of async_write_some only writes to the log.
  unfoldable pub on_write : Completion → RtuSlave → Outcome
  on_write ec c = (c, [])
