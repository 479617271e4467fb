-- ===== src/RtuSlave/World.antt =====
-- An RTU slave over any sequence of events.
use modbus_gateway.Base.{ℕ, ◌+◌, ◌≤◌, Bool, none, some, List, [], ◌∷◌, ◌++◌, arith}
use modbus_gateway.Asio.{Completion}
use modbus_gateway.Modbus.{Modbus, FrameType}
use modbus_gateway.Router.{Router}
use modbus_gateway.Message.{Message}
use modbus_gateway.Transport.{sends_of, requests_of}
use modbus_gateway.Transport.Counts.{sends_of-append, requests_of-append}
use modbus_gateway.RtuSlave.{
  RtuSlave, Outcome, on_read, receive, on_write, make_rtu_slave, make_request, make_response,
}

pub data Event (Buf : Type 0) : Type 0 where
  read_ends : Bool → Completion → Buf → ℕ → ℕ → Event Buf
  message_arrives : Message Buf → Event Buf
  write_ends : Completion → Event Buf

module _ {Buf : Type 0} (modbus : Modbus Buf) (router : Router) where
  abbrev pub handle : Event Buf → RtuSlave → Outcome modbus
  handle (read_ends alive ec b size now) c = on_read modbus router alive ec b size now c
  handle (message_arrives m) c = receive modbus m c
  handle (write_ends ec) c = on_write modbus ec c

  -- The state and all effects after the events.
  unfoldable pub run : List (Event Buf) → RtuSlave → Outcome modbus
  run [] c = (c, [])
  run (e ∷ es) c =
      let (c', first) = handle e c in let (c'', more) = run es c' in (c'', first ++ more)

  -- How many responses the slave still waits for.
  abbrev open_requests : RtuSlave → ℕ
  open_requests c = elim c.request_info [ none ↦ 0 | some i ↦ 1 ]

  handle_tally :
      (e : Event Buf) (c : RtuSlave)
      → sends_of (handle e c).1 + open_requests (handle e c).0
        ≤ requests_of (handle e c).1 + open_requests c
  unfolding on_read receive on_write make_request make_response
  handle_tally (read_ends alive ec b size now) c = ground arith
  handle_tally (message_arrives m) c = ground arith
  handle_tally (write_ends ec) c = ground arith

  run_tally :
      (es : List (Event Buf)) (c : RtuSlave)
      → sends_of (run es c).1 + open_requests (run es c).0
        ≤ requests_of (run es c).1 + open_requests c
  unfolding run
  run_tally [] c = omega arith
  run_tally (e ∷ es) c =
      let (c', first) = handle e c in
      omega (
        arith,
        handle_tally e c,
        run_tally es c',
        sends_of-append first (run es c').1,
        requests_of-append first (run es c').1,
      )

  -- Over any sequence of events, in any order, an RTU slave that was just made writes at most as many
  -- responses as it handed on requests.
  pub writes-le-requests :
      (id : ℕ) (frame_type : FrameType) (es : List (Event Buf))
      → let effects = (run es (make_rtu_slave id frame_type)).1 in
        sends_of effects ≤ requests_of effects
  unfolding make_rtu_slave
  writes-le-requests id frame_type es = omega (arith, run_tally es (make_rtu_slave id frame_type))
