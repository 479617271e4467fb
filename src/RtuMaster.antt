-- ===== src/RtuMaster.antt =====
-- transport/modbus_rtu_master.cpp and its header: the master on a serial line. A handler runs under
-- the actor's mutex while the actor exists; after its deletion a handler only returns.
pub mod Order
pub mod Progress
pub mod Requests
pub mod Responses
pub mod Routed
pub mod World
use modbus_gateway.Base.{
  ℕ, Bool, true, false, Option, none, some, List, [], ◌∷◌, ◌++◌, if◌then◌else◌,
}
use modbus_gateway.Asio.{Completion}
use modbus_gateway.Modbus.{Modbus, FrameType, increment}
use modbus_gateway.LimitQueue.{LimitQueue, unlimited, push}
use modbus_gateway.Message.{ModbusMessage, Message, modbus_message, client_disconnect}
use modbus_gateway.Transport.{
  Effect, start_send, start_receive, start_wait, cancel_timer, cancel_io, deliver,
  undefined_behaviour, drop_expired,
}

pub record CurrentMessage (Buf : Type 0) : Type 0 where
  pub modbus_message : ModbusMessage Buf
  pub id : ℕ

-- The members but for the serial port, the timer and the mutex. The timeout is in milliseconds.
pub record RtuMaster (Buf : Type 0) : Type 0 where
  pub id : ℕ
  pub timeout : ℕ
  pub frame_type : FrameType
  pub message_queue : LimitQueue (ModbusMessage Buf)
  pub current_message : Option (CurrentMessage Buf)
  pub transaction_id_generator : ℕ

abbrev pub Outcome : Type 0 → Type 0
Outcome Buf = RtuMaster Buf × List (Effect Buf)

-- The constructor, once the serial port is open; `id` is exchange::defaultId.
unfoldable pub make_rtu_master : {Buf : Type 0} → ℕ → ℕ → FrameType → RtuMaster Buf
unfolding unlimited
make_rtu_master id timeout frame_type = record {
  id = id;
  timeout = timeout;
  frame_type = frame_type;
  message_queue = unlimited;
  current_message = none;
  transaction_id_generator = 0;
}

unfoldable pub set_id : {Buf : Type 0} → ℕ → RtuMaster Buf → RtuMaster Buf
set_id id c = record c { id = id }

module _ {Buf : Type 0} (modbus : Modbus Buf) where
  abbrev pub request_frame : FrameType → Buf → Buf
  request_frame frame_type b = modbus.update (modbus.convert_to frame_type b)

  -- StartMessageTaskUnsafe from the message's buffer on, with `id` its new transaction id. The
  -- buffer is shared with the message, which sees the changes.
  send_request : ModbusMessage Buf → ℕ → Option Buf → RtuMaster Buf → Outcome Buf
  send_request m id none c = (
    record c { current_message = some (record { modbus_message = m; id = id }) },
    undefined_behaviour ∷ [],
  )
  send_request m id (some b) c =
      let frame = request_frame c.frame_type b in
      (
        record c {
          current_message =
              some (record { modbus_message = record m { buffer = some frame }; id = id });
        },
        start_send frame (modbus.get_adu_size frame) ∷ [],
      )

  -- StartMessageTaskUnsafe, for the message in front and those behind it.
  unfoldable pub start_message_task :
      ModbusMessage Buf → List (ModbusMessage Buf) → RtuMaster Buf → Outcome Buf
  unfolding send_request
  start_message_task m ms c =
      let id = increment modbus.transaction_id_limit c.transaction_id_generator in
      send_request m id m.buffer (record c {
        transaction_id_generator = id;
        message_queue = record c.message_queue { queue = ms };
      })

  -- QueueProcessUnsafe after its loop.
  take_message : List (ModbusMessage Buf) → RtuMaster Buf → Outcome Buf
  unfolding start_message_task
  take_message [] c = (record c { message_queue = record c.message_queue { queue = [] } }, [])
  take_message (m ∷ ms) c = start_message_task m ms c

  unfoldable pub queue_process : (ℕ → ℕ) → RtuMaster Buf → Outcome Buf
  unfolding take_message
  queue_process clock c = elim c.message_queue.queue [
    | [] ↦ (c, [])
    | _ ∷ _ ↦ elim c.current_message [
      | some current ↦ (c, [])
      | none ↦ take_message (drop_expired c.timeout clock c.message_queue.queue) c
    ]
  ]

  -- MessageProcess
  unfoldable pub process_message : ModbusMessage Buf → (ℕ → ℕ) → RtuMaster Buf → Outcome Buf
  process_message m clock c =
      queue_process clock (record c { message_queue = push m c.message_queue })

  unfoldable pub receive : Message Buf → (ℕ → ℕ) → RtuMaster Buf → Outcome Buf
  receive (modbus_message m) clock c = process_message m clock c
  receive (client_disconnect i) clock c = (c, [])

  -- The handler of async_write_some: StartWaitTask and StartReadTask.
  unfoldable pub on_write : Completion → RtuMaster Buf → Outcome Buf
  on_write (some ec) c = (record c { current_message = none }, [])
  on_write none c =
      let fresh = modbus.make_buffer c.frame_type in
      (c, start_wait c.timeout ∷ start_receive fresh (modbus.get_adu_size fresh) ∷ [])

  -- The handler of the timer.
  unfoldable pub on_wait : Completion → RtuMaster Buf → Outcome Buf
  on_wait (some ec) c = (c, [])
  on_wait none c = (c, cancel_io ∷ [])

  -- MakeResponse for a request in progress, from the answer of SetAduSize on.
  check_response :
      CurrentMessage Buf → Bool → Buf → RtuMaster Buf → Option (ModbusMessage Buf) × RtuMaster Buf
  check_response current false b c = (none, c)
  check_response current true b c =
      let answer : ModbusMessage Buf = record {
        info = current.modbus_message.info;
        buffer = some b;
      } in
      (if modbus.check_no_error b then some answer else none, record c { current_message = none })

  unfoldable pub make_response :
      Buf → ℕ → RtuMaster Buf → Option (ModbusMessage Buf) × RtuMaster Buf
  unfolding check_response
  make_response b size c = elim c.current_message [
    | none ↦ (none, c)
    | some current ↦
        let sized = modbus.set_adu_size size b in check_response current sized.0 sized.1 c
  ]

  -- `exchange->Send(sourceId, response)`
  abbrev pub forward : Option (ModbusMessage Buf) → List (Effect Buf)
  forward none = []
  forward (some m) = deliver m.info.source_id (modbus_message m) ∷ []

  -- The handler of async_read_some, where the operation has filled the buffer; `alive` is whether
  -- the exchange still exists.
  unfoldable pub on_read : Bool → Completion → Buf → ℕ → (ℕ → ℕ) → RtuMaster Buf → Outcome Buf
  on_read false ec b size clock c = (c, [])
  on_read true (some ec) b size clock c = (record c { current_message = none }, cancel_timer ∷ [])
  on_read true none b size clock c =
      let (response, c') = make_response b size c in
      let (c'', es) = queue_process clock c' in (c'', cancel_timer ∷ (forward response ++ es))
