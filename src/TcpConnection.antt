-- ===== src/TcpConnection.antt =====
-- transport/modbus_tcp_connection.cpp and its header: one TCP client of a server. Its handlers run
-- while the actor exists; after its deletion a handler only returns.
pub mod Responses
pub mod Routed
pub mod Threads
pub mod World
use modbus_gateway.Base.{
  ℕ, Bool, true, false, ◌&&◌, Option, none, some, List, [], ◌∷◌, ◌==◌, if◌then◌else◌,
}
use modbus_gateway.Asio.{ErrorCode, Completion, is_cancelled}
use modbus_gateway.Modbus.{Modbus, tcp}
use modbus_gateway.Router.{Router, route}
use modbus_gateway.Message.{
  ModbusMessageInfo, ModbusMessage, Message, modbus_message, client_disconnect, make_info,
}
use modbus_gateway.Transport.{
  Effect, start_send, start_receive, cancel_io, deliver, undefined_behaviour,
}

-- The members but for the socket and the router. `request_info` is the value in `syncRequestInfo_`,
-- which is read and written under its mutex.
pub record TcpConnection : Type 0 where
  pub id : ℕ
  pub server_id : ℕ
  pub request_info : Option ModbusMessageInfo

-- The constructor; `id` is exchange::defaultId.
unfoldable pub make_tcp_connection : ℕ → ℕ → TcpConnection
make_tcp_connection id server_id = record { id = id; server_id = server_id; request_info = none }

unfoldable pub set_id : ℕ → TcpConnection → TcpConnection
set_id id c = record c { id = id }

module _ {Buf : Type 0} (modbus : Modbus Buf) where
  abbrev pub Outcome : Type 0
  Outcome = TcpConnection × List (Effect Buf)

  -- StartReceiveTask up to its handler.
  abbrev pub start_receive_task : Effect Buf
  start_receive_task =
      let fresh = modbus.make_buffer tcp in start_receive fresh (modbus.get_adu_size fresh)

  -- Start, where its log line finds the peer; the handler of the accept has the other case.
  unfoldable pub start : TcpConnection → Outcome
  start c = (c, start_receive_task ∷ [])

  unfoldable pub stop : TcpConnection → Outcome
  stop c = (c, cancel_io ∷ [])

  -- MakeRequest; `now` is the reading of the clock at the creation of the message.
  unfoldable pub make_request : ℕ → Buf → ℕ → ℕ → Option (ModbusMessage Buf)
  unfolding make_info
  make_request now b size master_id =
      let sized = modbus.set_adu_size size b in
      let request : ModbusMessage Buf = record {
        info = make_info now master_id (modbus.get_transaction_id sized.1);
        buffer = some sized.1;
      } in
      if sized.0 then if modbus.tcp_check_no_error sized.1 then some request else none else none

  -- The message is sent to the actor that the unit id is routed to.
  abbrev route_message : Router → Buf → Message Buf → List (Effect Buf)
  route_message router b m = elim (route router (modbus.get_unit_id b)) [
    | none ↦ undefined_behaviour ∷ []
    | some actor_id ↦ deliver actor_id m ∷ start_receive_task ∷ []
  ]

  -- The handler of async_receive from the result of MakeRequest on.
  accept_request : Router → Option (ModbusMessage Buf) → TcpConnection → Outcome
  accept_request router none c = (c, start_receive_task ∷ [])
  accept_request router (some m) c = (
    record c { request_info = some m.info },
    elim m.buffer [
      | none ↦ undefined_behaviour ∷ []
      | some b ↦ route_message router b (modbus_message m)
    ],
  )

  -- The handler of async_receive, where the operation has filled the buffer; `alive` is whether the
  -- exchange still exists.
  unfoldable pub on_receive : Router → Bool → Completion → Buf → ℕ → ℕ → TcpConnection → Outcome
  unfolding accept_request
  on_receive router false ec b size now c = (c, [])
  on_receive router true (some ec) b size now c =
      if is_cancelled ec
      then (c, deliver c.server_id (client_disconnect c.id) ∷ [])
      else (c, start_receive_task ∷ [])
  on_receive router true none b size now c = accept_request router (make_request now b size c.id) c

  -- The response as it is sent: converted, updated and given the transaction id of its request.
  abbrev pub response_frame : ℕ → Buf → Buf
  response_frame transaction_id b =
      modbus.set_transaction_id transaction_id (modbus.tcp_update (modbus.convert_to tcp b))

  -- MakeResponse for the last request's information.
  match_response :
      ModbusMessage Buf → ModbusMessageInfo → TcpConnection → Option Buf × TcpConnection
  match_response m last c =
      if last.transaction_id == m.info.transaction_id
      then (
        elim m.buffer [ none ↦ none | some b ↦ some (response_frame m.info.transaction_id b) ],
        record c { request_info = none },
      )
      else (none, c)

  unfoldable pub make_response : ModbusMessage Buf → TcpConnection → Option Buf × TcpConnection
  unfolding match_response
  make_response m c =
      if c.id == m.info.source_id
      then (elim c.request_info [ none ↦ (none, c) | some last ↦ match_response m last c ])
      else (none, c)

  abbrev pub send_frame : Option Buf → List (Effect Buf)
  send_frame none = []
  send_frame (some b) = start_send b (modbus.get_adu_size b) ∷ []

  -- Receive and StartSendTask.
  unfoldable pub receive : Message Buf → TcpConnection → Outcome
  receive (modbus_message m) c = let (frame, c') = make_response m c in (c', send_frame frame)
  receive (client_disconnect i) c = (c, [])

  -- The handler of async_send only writes to the log.
  unfoldable pub on_send : Completion → TcpConnection → Outcome
  on_send ec c = (c, [])
