-- ===== src/Examples/Master.antt =====
-- The RTU master at concrete inputs.
use modbus_gateway.Base.{
  IsSublist, ◌++◌, ℕ, ◌≡◌, refl, true, false, none, some, List, [], ◌∷◌, arith, ◌+◌, ◌*◌, ◌≤◌,
}
use modbus_gateway.Asio.{operation_aborted}
use modbus_gateway.Modbus.{rtu}
use modbus_gateway.LimitQueue.{push, size_max}
use modbus_gateway.Message.{ModbusMessage, modbus_message}
use modbus_gateway.Transport.{delivered, drop_expired}
use modbus_gateway.Transport.Expiry.{Splits}
use modbus_gateway.RtuMaster.{
  RtuMaster, CurrentMessage, make_rtu_master, receive, process_message, queue_process, on_read,
}
use modbus_gateway.RtuMaster.Order.{run, run-writes_in_order}
use modbus_gateway.Transport.Keys.{keys}
use modbus_gateway.RtuMaster.Progress.{idle_again, on_read_continues}
use modbus_gateway.Transport.{frames}
use modbus_gateway.RtuMaster.Requests.{Takes, queue_process-Starts}
use modbus_gateway.RtuMaster.Responses.{response_to, on_read-delivered}
use modbus_gateway.RtuMaster.World.{
  World, Event, Reach, here, next, advance, start_world, message_arrives, write_ends, wait_ends,
  read_ends,
}
use modbus_gateway.RtuMaster.World.Settling.{steps, arrivals, workload, Reach-comes_to_rest}
use modbus_gateway.RtuMaster.World.InFlight.{InFlight, Reach-OneOnLine}
use modbus_gateway.RtuMaster.World.Stuck.{
  IsWedged, IsStalled, invalid_read_wedges, failed_read_stalls,
}
use modbus_gateway.Examples.Samples.{Frame, modbus}

abbrev request : Frame
request = record {
  type = rtu;
  unit_id = 17;
  size = 8;
  transaction_id = 0;
  pdu = 3 ∷ 0 ∷ [];
  fits = true;
}

abbrev answer : Frame
answer = record {
  type = rtu;
  unit_id = 17;
  size = 0;
  transaction_id = 0;
  pdu = 3 ∷ 0 ∷ [];
  fits = true;
}

abbrev message_of : ℕ → ModbusMessage Frame
message_of time = record {
  info = record {
    create_timestamp = time;
    timeout_reached = false;
    source_id = 4;
    transaction_id = 1;
  };
  buffer = some request;
}

abbrev master_with : List (ModbusMessage Frame) → RtuMaster Frame
master_with ms = record {
  id = 6;
  timeout = 500;
  frame_type = rtu;
  message_queue = record { queue = ms; max_size = size_max };
  current_message = none;
  transaction_id_generator = 65535;
}

-- The first of two messages has expired; the transaction id wraps round.
abbrev two : List (ModbusMessage Frame)
two = message_of 0 ∷ message_of 900_000_000 ∷ []

queue_process-Starts_example :
    (rest : List (ModbusMessage Frame)) × Splits 500 (λ i. 1_000_000_000) two rest
    × Takes modbus
        (master_with two)
        rest
        (queue_process modbus (λ i. 1_000_000_000) (master_with two))
queue_process-Starts_example =
    queue_process-Starts modbus (λ i. 1_000_000_000) (master_with two) refl

abbrev current : CurrentMessage Frame
current = record { modbus_message = message_of 0; id = 0 }

abbrev waiting : RtuMaster Frame
waiting = record (master_with (message_of 7 ∷ [])) { current_message = some current }

on_read-delivered_example :
    delivered (on_read modbus true none answer 7 (λ i. 8) waiting).1
    ≡ response_to modbus current answer 7 ∷ []
on_read-delivered_example = on_read-delivered modbus true none answer 7 (λ i. 8) waiting

abbrev reading : World Frame
reading = record {
  master = waiting;
  pending = record { connects = 0; accepts = 0; sends = 0; receives = 1; waits = 1 };
}

reading-InFlight : InFlight reading
reading-InFlight = record { single = omega arith; current = λ h. refl }

abbrev invalid : Event Frame
invalid = read_ends true none answer 300 (λ i. 8)

invalid_read_wedges_example : IsWedged current (
    advance modbus
      (message_arrives (modbus_message (message_of 9)) (λ i. 9))
      (advance modbus invalid reading))
invalid_read_wedges_example =
    invalid_read_wedges modbus reading
      (advance modbus (message_arrives (modbus_message (message_of 9)) (λ i. 9))
        (advance modbus invalid reading))
      current answer 300 (λ i. 8) reading-InFlight (omega arith) refl refl
      (next (message_arrives (modbus_message (message_of 9)) (λ i. 9)) here tt tt refl)

abbrev failed : Event Frame
failed = read_ends true (some operation_aborted) answer 0 (λ i. 8)

failed_read_stalls_example :
    IsStalled waiting.message_queue
      (advance modbus (wait_ends none) (advance modbus failed reading))
unfolding on_read
failed_read_stalls_example =
    failed_read_stalls modbus reading
      (advance modbus (wait_ends none) (advance modbus failed reading)) operation_aborted answer 0
      (λ i. 8) reading-InFlight (omega arith) (next (wait_ends none) here (omega arith) tt refl)

abbrev arrival : Event Frame
arrival = message_arrives (modbus_message (message_of 0)) (λ i. 1)

-- A message arrives, and its frame is written.
abbrev writing : World Frame
writing = advance modbus (write_ends none) (advance modbus arrival (start_world 0 500 rtu))

writing-reached : Reach modbus (λ e. Unit {0}) (start_world 0 500 rtu) writing
unfolding receive process_message queue_process make_rtu_master push drop_expired
writing-reached = next (write_ends none) (next arrival here tt tt refl) (omega arith) tt refl

Reach-OneOnLine_example : InFlight writing
Reach-OneOnLine_example = Reach-OneOnLine modbus 0 500 rtu writing-reached

Reach-comes_to_rest_example :
    steps modbus writing-reached + workload writing
    ≤ 5 * arrivals modbus writing-reached + workload {Buf = Frame} (start_world 0 500 rtu)
Reach-comes_to_rest_example = Reach-comes_to_rest modbus writing-reached

-- Two requests arrive, and the answer to the first one comes.
abbrev course : List (Event Frame)
course =
    message_arrives (modbus_message (message_of 0)) (λ i. 1)
    ∷ message_arrives (modbus_message (message_of 1)) (λ i. 2)
    ∷ write_ends none
    ∷ read_ends true none answer 7 (λ i. 4)
    ∷ []

run-writes_in_order_example :
    let (writes, master) = run modbus course (make_rtu_master 0 500 rtu) in
    IsSublist (writes ++ keys master.message_queue.queue) ((4, 1) ∷ (4, 1) ∷ [])
run-writes_in_order_example = run-writes_in_order modbus 0 500 rtu course

on_read_continues_example :
    let o = on_read modbus true none answer 7 (λ i. 8) waiting in
    (rest : List (ModbusMessage Frame)) × Splits 500 (λ i. 8) (message_of 7 ∷ []) rest
    × Takes modbus (idle_again waiting) rest (o.0, frames o.1)
on_read_continues_example = on_read_continues modbus answer 7 (λ i. 8) waiting current refl refl
