-- ===== src/TcpClient.antt =====
-- transport/modbus_tcp_client.cpp and its header: the master that talks to a TCP server. A handler
-- runs under the actor's mutex while the actor exists; after its deletion a handler only returns.
pub mod Order
pub mod Progress
pub mod Requests
pub mod Responses
pub mod Routed
pub mod World
use modbus_gateway.Base.{
  ℕ, Bool, true, false, Option, none, some, List, [], ◌∷◌, ◌++◌, ◌==◌, if◌then◌else◌,
}
use modbus_gateway.Asio.{ErrorCode, Peer, stays, left, leaves, Completion, is_aborted}
use modbus_gateway.Modbus.{Modbus, tcp, increment}
use modbus_gateway.LimitQueue.{LimitQueue, unlimited, push}
use modbus_gateway.Message.{ModbusMessage, Message, modbus_message, client_disconnect}
use modbus_gateway.Transport.{
  escapes, Effect, start_connect, start_send, start_receive, start_wait, cancel_timer, cancel_io,
  close_io, deliver, undefined_behaviour, drop_expired,
}

pub record CurrentMessage (Buf : Type 0) : Type 0 where
  pub modbus_message : ModbusMessage Buf
  pub id : ℕ

pub data State : Type 0 where
  idle wait_connect connected message_process : State

-- The members but for the socket, the endpoint, the timer and the mutex. The timeout is in
-- milliseconds.
pub record TcpClient (Buf : Type 0) : Type 0 where
  pub id : ℕ
  pub timeout : ℕ
  pub message_queue : LimitQueue (ModbusMessage Buf)
  pub current_message : Option (CurrentMessage Buf)
  pub transaction_id_generator : ℕ
  pub state : State

abbrev pub Outcome : Type 0 → Type 0
Outcome Buf = TcpClient Buf × List (Effect Buf)

-- The constructor; `id` is exchange::defaultId.
unfoldable pub make_tcp_client : {Buf : Type 0} → ℕ → ℕ → TcpClient Buf
unfolding unlimited
make_tcp_client id timeout = record {
  id = id;
  timeout = timeout;
  message_queue = unlimited;
  current_message = none;
  transaction_id_generator = 0;
  state = idle;
}

unfoldable pub set_id : {Buf : Type 0} → ℕ → TcpClient Buf → TcpClient Buf
set_id id c = record c { id = id }

module _ {Buf : Type 0} (modbus : Modbus Buf) where
  -- The frame that is sent for a request: converted, updated and given the client's own id.
  abbrev pub request_frame : ℕ → Buf → Buf
  request_frame id b = modbus.set_transaction_id id (modbus.tcp_update (modbus.convert_to tcp b))

  -- The rest of StartMessageTaskUnsafe for a message that was taken from the queue, with `id` its
  -- new transaction id. The buffer is shared with the message, which sees the changes.
  send_request : ModbusMessage Buf → ℕ → Option Buf → TcpClient Buf → Outcome Buf
  send_request m id none c = (
    record c { current_message = some (record { modbus_message = m; id = id }) },
    undefined_behaviour ∷ [],
  )
  send_request m id (some b) c =
      let frame = request_frame id b in
      (
        record c {
          current_message =
              some (record { modbus_message = record m { buffer = some frame }; id = id });
        },
        start_send frame (modbus.get_adu_size frame) ∷ [],
      )

  -- StartMessageTaskUnsafe after its loop.
  take_message : List (ModbusMessage Buf) → TcpClient Buf → Outcome Buf
  unfolding send_request
  take_message [] c = (record c { message_queue = record c.message_queue { queue = [] } }, [])
  take_message (m ∷ ms) c =
      let id = increment modbus.transaction_id_limit c.transaction_id_generator in
      send_request m id m.buffer (record c {
        state = message_process;
        transaction_id_generator = id;
        message_queue = record c.message_queue { queue = ms };
      })

  unfoldable pub start_message_task : (ℕ → ℕ) → TcpClient Buf → Outcome Buf
  unfolding take_message drop_expired
  start_message_task clock c = elim c.current_message [
    | some current ↦ (c, [])
    | none ↦ take_message (drop_expired c.timeout clock c.message_queue.queue) c
  ]

  -- The `switch` of QueueProcessUnsafe. StartConnectTaskUnsafe does not change the state.
  process_state : State → (ℕ → ℕ) → TcpClient Buf → Outcome Buf
  unfolding start_message_task
  process_state idle clock c = (c, start_connect ∷ [])
  process_state wait_connect clock c = (c, [])
  process_state connected clock c = start_message_task clock c
  process_state message_process clock c = (c, [])

  unfoldable pub queue_process : (ℕ → ℕ) → TcpClient Buf → Outcome Buf
  unfolding process_state
  queue_process clock c = elim c.message_queue.queue [
    | [] ↦ (c, [])
    | _ ∷ _ ↦ process_state c.state clock c
  ]

  -- MessageProcess
  unfoldable pub process_message : ModbusMessage Buf → (ℕ → ℕ) → TcpClient Buf → Outcome Buf
  process_message m clock c =
      queue_process clock (record c { message_queue = push m c.message_queue })

  unfoldable pub receive : Message Buf → (ℕ → ℕ) → TcpClient Buf → Outcome Buf
  receive (modbus_message m) clock c = process_message m clock c
  receive (client_disconnect i) clock c = (c, [])

  -- The handler of async_connect. Its log line asks for the peer.
  unfoldable pub on_connect : Peer → Completion → (ℕ → ℕ) → TcpClient Buf → Outcome Buf
  on_connect peer (some ec) clock c = (record c { state = idle }, [])
  on_connect left none clock c = (record c { state = connected }, escapes ∷ [])
  on_connect leaves none clock c = (record c { state = connected }, escapes ∷ [])
  on_connect stays none clock c = queue_process clock (record c { state = connected })

  -- A failed send or receive gives up the request; any error but a cancellation also closes the
  -- connection.
  abbrev give_up : ErrorCode → TcpClient Buf → Outcome Buf
  give_up ec c =
      if is_aborted ec
      then (record c { current_message = none; state = connected }, [])
      else (record c { current_message = none; state = idle }, close_io ∷ [])

  -- The handler of async_send: StartWaitTask and StartReceiveTask.
  unfoldable pub on_send : Completion → TcpClient Buf → Outcome Buf
  on_send (some ec) c = give_up ec c
  on_send none c =
      let fresh = modbus.make_buffer tcp in
      (c, start_wait c.timeout ∷ start_receive fresh (modbus.get_adu_size fresh) ∷ [])

  -- The handler of the timer.
  unfoldable pub on_wait : Completion → TcpClient Buf → Outcome Buf
  on_wait (some ec) c = (c, [])
  on_wait none c = (c, cancel_io ∷ [])

  -- MakeResponse for a request in progress, from the answer of SetAduSize on.
  check_response :
      CurrentMessage Buf → Bool → Buf → TcpClient Buf → Option (ModbusMessage Buf) × TcpClient Buf
  check_response current false b c = (none, c)
  check_response current true b c =
      let answer : ModbusMessage Buf = record {
        info = current.modbus_message.info;
        buffer = some b;
      } in
      (
        if modbus.tcp_check_no_error b
            then if modbus.get_transaction_id b == current.id then some answer else none
            else none,
        record c { current_message = none },
      )

  unfoldable pub make_response :
      Buf → ℕ → TcpClient Buf → Option (ModbusMessage Buf) × TcpClient Buf
  unfolding check_response
  make_response b size c = elim c.current_message [
    | none ↦ (none, c)
    | some current ↦
        let sized = modbus.set_adu_size size b in check_response current sized.0 sized.1 c
  ]

  -- `exchange->Send(sourceId, response)`
  abbrev pub forward : Option (ModbusMessage Buf) → List (Effect Buf)
  forward none = []
  forward (some m) = deliver m.info.source_id (modbus_message m) ∷ []

  -- The handler of async_receive, where the operation has filled the buffer; `alive` is whether the
  -- exchange still exists.
  unfoldable pub on_receive : Bool → Completion → Buf → ℕ → (ℕ → ℕ) → TcpClient Buf → Outcome Buf
  on_receive false ec b size clock c = (c, [])
  on_receive true (some ec) b size clock c = let (c', es) = give_up ec c in (c', cancel_timer ∷ es)
  on_receive true none b size clock c =
      let (response, c') = make_response b size c in
      let (c'', es) = queue_process clock (record c' { state = connected }) in
      (c'', cancel_timer ∷ (forward response ++ es))
