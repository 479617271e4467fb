-- ===== src/Examples/Client.antt =====
-- The TCP client at concrete inputs.
use modbus_gateway.Base.{
  IsSublist, ◌++◌, ℕ, ◌≡◌, refl, true, false, none, some, List, [], ◌∷◌, arith, ◌+◌, ◌*◌, ◌≤◌,
}
use modbus_gateway.Asio.{stays, operation_aborted}
use modbus_gateway.Modbus.{tcp}
use modbus_gateway.LimitQueue.{push, size_max}
use modbus_gateway.Message.{ModbusMessage, modbus_message}
use modbus_gateway.Router.Laws.{route-default_router}
use modbus_gateway.Router.{default_router}
use modbus_gateway.Transport.{delivered}
use modbus_gateway.Transport.Expiry.{Splits}
use modbus_gateway.TcpConnection.{TcpConnection}
use modbus_gateway.TcpClient.{
  TcpClient, CurrentMessage, connected, message_process, idle, make_tcp_client, receive,
  process_message, queue_process, on_receive,
}
use modbus_gateway.TcpClient.Order.{run, run-sends_in_order}
use modbus_gateway.Transport.Keys.{keys}
use modbus_gateway.TcpClient.Progress.{idle_again, on_receive_continues}
use modbus_gateway.Transport.{frames}
use modbus_gateway.TcpClient.Requests.{Takes, queue_process-Takes}
use modbus_gateway.TcpClient.Responses.{response_to, on_receive-delivered}
use modbus_gateway.TcpClient.World.{
  World, Event, Reach, here, next, advance, start_world, message_arrives, connect_ends, send_ends,
  wait_ends, receive_ends,
}
use modbus_gateway.TcpClient.World.Settling.{steps, arrivals, workload, Reach-settles}
use modbus_gateway.TcpClient.World.InFlight.{InFlight, Reach-InFlight}
use modbus_gateway.TcpClient.World.Connecting.{connects_unbounded}
use modbus_gateway.TcpClient.World.Stuck.{IsWedged, IsStalled, invalid_size_wedges, timeout_stalls}
use modbus_gateway.Journey.{ComesBack, request_returns}
use modbus_gateway.Examples.Samples.{Frame, modbus, modbus-Laws}

abbrev request : Frame
request = record {
  type = tcp;
  unit_id = 5;
  size = 12;
  transaction_id = 77;
  pdu = 3 ∷ 0 ∷ [];
  fits = true;
}

abbrev answer : Frame
answer = record {
  type = tcp;
  unit_id = 5;
  size = 0;
  transaction_id = 42;
  pdu = 3 ∷ 0 ∷ [];
  fits = true;
}

-- A message that was made at the given time.
abbrev message_of : ℕ → ModbusMessage Frame
message_of time = record {
  info = record {
    create_timestamp = time;
    timeout_reached = false;
    source_id = 9;
    transaction_id = 77;
  };
  buffer = some request;
}

abbrev client_with : List (ModbusMessage Frame) → TcpClient Frame
client_with ms = record {
  id = 3;
  timeout = 1000;
  message_queue = record { queue = ms; max_size = size_max };
  current_message = none;
  transaction_id_generator = 41;
  state = connected;
}

abbrev connection : TcpConnection
connection = record { id = 9; server_id = 2; request_info = none }

request_returns_example :
    ComesBack modbus modbus-Laws
      (default_router 255 3)
      connection
      (client_with [])
      request
      answer
      12
      11
      100
      3
      (λ i. 200)
      (λ i. 300)
request_returns_example =
    request_returns modbus modbus-Laws (default_router 255 3) connection (client_with []) request
      answer 12 11 100 3 (λ i. 200) (λ i. 300) refl refl
      (route-default_router 255 3 5 (omega arith)) refl refl refl refl refl refl refl

-- The first of two messages has expired.
abbrev two : List (ModbusMessage Frame)
two = message_of 0 ∷ message_of 5_000_000_000 ∷ []

queue_process-Takes_example :
    (rest : List (ModbusMessage Frame)) × Splits 1000 (λ i. 5_500_000_000) two rest
    × Takes modbus
        (client_with two)
        rest
        (queue_process modbus (λ i. 5_500_000_000) (client_with two))
queue_process-Takes_example =
    queue_process-Takes modbus (λ i. 5_500_000_000) (client_with two) refl refl

abbrev current : CurrentMessage Frame
current = record { modbus_message = message_of 0; id = 42 }

-- A client that waits for the answer, with another message in its queue.
abbrev waiting : TcpClient Frame
waiting = record (client_with (message_of 7 ∷ [])) {
  current_message = some current;
  state = message_process;
}

on_receive-delivered_example :
    delivered (on_receive modbus true none answer 11 (λ i. 8) waiting).1
    ≡ response_to modbus current answer 11 ∷ []
on_receive-delivered_example = on_receive-delivered modbus true none answer 11 (λ i. 8) waiting

abbrev receiving : World Frame
receiving = record {
  client = waiting;
  pending = record { connects = 0; accepts = 0; sends = 0; receives = 1; waits = 1 };
}

receiving-InFlight : InFlight receiving
receiving-InFlight = record { single = omega arith; current = λ h. refl }

-- Fewer bytes than any frame may be refused: here more than a buffer holds.
abbrev invalid : Event Frame
invalid = receive_ends true none answer 300 (λ i. 8)

invalid_size_wedges_example : IsWedged current (
    advance modbus
      (message_arrives (modbus_message (message_of 9)) (λ i. 9))
      (advance modbus invalid receiving))
invalid_size_wedges_example =
    invalid_size_wedges modbus receiving
      (advance modbus (message_arrives (modbus_message (message_of 9)) (λ i. 9))
        (advance modbus invalid receiving))
      current answer 300 (λ i. 8) receiving-InFlight (omega arith) refl refl
      (next (message_arrives (modbus_message (message_of 9)) (λ i. 9)) here tt tt refl)

abbrev aborted : Event Frame
aborted = receive_ends true (some operation_aborted) answer 0 (λ i. 8)

timeout_stalls_example :
    IsStalled waiting.message_queue
      (advance modbus (wait_ends none) (advance modbus aborted receiving))
unfolding on_receive
timeout_stalls_example =
    timeout_stalls modbus receiving
      (advance modbus (wait_ends none) (advance modbus aborted receiving)) answer 0 (λ i. 8)
      receiving-InFlight (omega arith) refl (next (wait_ends none) here (omega arith) tt refl)

connects_unbounded_example :
    (w : World Frame) × Reach modbus (λ e. Unit {0}) (start_world 0 1000) w
    × (w.client.state ≡ idle)
    × (w.pending.connects ≡ 3)
connects_unbounded_example = connects_unbounded modbus 0 1000 3 (message_of 0)

abbrev arrival : Event Frame
arrival = message_arrives (modbus_message (message_of 0)) (λ i. 1)

-- A message arrives, and the connection is made.
abbrev connecting : World Frame
connecting =
    advance modbus (connect_ends stays none (λ i. 2)) (advance modbus arrival (start_world 0 1000))

connecting-reached : Reach modbus (λ e. Unit {0}) (start_world 0 1000) connecting
unfolding receive process_message queue_process make_tcp_client push
connecting-reached =
    next (connect_ends stays none (λ i. 2)) (next arrival here tt tt refl) (omega arith) tt refl

Reach-InFlight_example : InFlight connecting
Reach-InFlight_example = Reach-InFlight modbus 0 1000 connecting-reached

Reach-settles_example :
    steps modbus connecting-reached + workload connecting
    ≤ 6 * arrivals modbus connecting-reached + workload {Buf = Frame} (start_world 0 1000)
Reach-settles_example = Reach-settles modbus connecting-reached

-- Two requests arrive before the connection is made, and the answer to the first one comes.
abbrev course : List (Event Frame)
course =
    message_arrives (modbus_message (message_of 0)) (λ i. 1)
    ∷ message_arrives (modbus_message (message_of 1)) (λ i. 2)
    ∷ connect_ends stays none (λ i. 3)
    ∷ send_ends none
    ∷ receive_ends true none answer 11 (λ i. 4)
    ∷ []

run-sends_in_order_example :
    let (sends, client) = run modbus course (make_tcp_client 0 1000) in
    IsSublist (sends ++ keys client.message_queue.queue) ((9, 77) ∷ (9, 77) ∷ [])
run-sends_in_order_example = run-sends_in_order modbus 0 1000 course

on_receive_continues_example :
    let o = on_receive modbus true none answer 11 (λ i. 8) waiting in
    (rest : List (ModbusMessage Frame)) × Splits 1000 (λ i. 8) (message_of 7 ∷ []) rest
    × Takes modbus (idle_again waiting) rest (o.0, frames o.1)
on_receive_continues_example =
    on_receive_continues modbus answer 11 (λ i. 8) waiting current refl refl
