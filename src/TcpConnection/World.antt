-- ===== src/TcpConnection/World.antt =====
-- A connection over any sequence of events.
use modbus_gateway.Base.{ℕ, ◌+◌, ◌≤◌, Bool, none, some, List, [], ◌∷◌, ◌++◌, arith}
use modbus_gateway.Asio.{Completion}
use modbus_gateway.Modbus.{Modbus}
use modbus_gateway.Router.{Router}
use modbus_gateway.Message.{Message}
use modbus_gateway.Transport.{sends_of, requests_of}
use modbus_gateway.Transport.Counts.{sends_of-append, requests_of-append}
use modbus_gateway.TcpConnection.{
  TcpConnection, Outcome, on_receive, receive, on_send, make_tcp_connection, make_request,
  make_response,
}

pub data Event (Buf : Type 0) : Type 0 where
  receive_ends : Bool → Completion → Buf → ℕ → ℕ → Event Buf
  message_arrives : Message Buf → Event Buf
  send_ends : Completion → Event Buf

module _ {Buf : Type 0} (modbus : Modbus Buf) (router : Router) where
  abbrev pub handle : Event Buf → TcpConnection → Outcome modbus
  handle (receive_ends alive ec b size now) c = on_receive modbus router alive ec b size now c
  handle (message_arrives m) c = receive modbus m c
  handle (send_ends ec) c = on_send modbus ec c

  -- The state and all effects after the events.
  unfoldable pub run : List (Event Buf) → TcpConnection → Outcome modbus
  run [] c = (c, [])
  run (e ∷ es) c =
      let (c', first) = handle e c in let (c'', more) = run es c' in (c'', first ++ more)

  -- How many responses the connection still waits for.
  abbrev open_requests : TcpConnection → ℕ
  open_requests c = elim c.request_info [ none ↦ 0 | some i ↦ 1 ]

  handle_tally :
      (e : Event Buf) (c : TcpConnection)
      → sends_of (handle e c).1 + open_requests (handle e c).0
        ≤ requests_of (handle e c).1 + open_requests c
  unfolding on_receive receive on_send make_request make_response
  handle_tally (receive_ends alive ec b size now) c = ground arith
  handle_tally (message_arrives m) c = ground arith
  handle_tally (send_ends ec) c = ground arith

  run_tally :
      (es : List (Event Buf)) (c : TcpConnection)
      → sends_of (run es c).1 + open_requests (run es c).0
        ≤ requests_of (run es c).1 + open_requests c
  unfolding run
  run_tally [] c = omega arith
  run_tally (e ∷ es) c =
      let (c', first) = handle e c in
      omega (
        arith,
        handle_tally e c,
        run_tally es c',
        sends_of-append first (run es c').1,
        requests_of-append first (run es c').1,
      )

  -- Over any sequence of events, in any order, a connection that was just made sends at most as many
  -- responses as it handed on requests.
  pub responses-le-requests :
      (id server_id : ℕ) (es : List (Event Buf))
      → let effects = (run es (make_tcp_connection id server_id)).1 in
        sends_of effects ≤ requests_of effects
  unfolding make_tcp_connection
  responses-le-requests id server_id es =
      omega (arith, run_tally es (make_tcp_connection id server_id))
