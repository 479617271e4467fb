-- ===== src/Examples/Overlaps.antt =====
-- Handlers on several threads at concrete inputs: a request, and the same answer on all other threads.
use modbus_gateway.Base.{
  ℕ, ◌≡◌, refl, true, false, some, List, [], ◌∷◌, ◌++◌, ◌==◌, if◌then◌else◌, Bool-cases, inl, inr,
}
use modbus_gateway.Modbus.{tcp, rtu}
use modbus_gateway.Message.{ModbusMessage}
use modbus_gateway.Router.{default_router}
use modbus_gateway.Transport.{start_send}
use modbus_gateway.Transport.Overlap.{Task, request, response, finished, run}
use modbus_gateway.Transport.Overlap.Turns.{IsBeginning, InTurns}
use modbus_gateway.Synchronized.{make_synchronized}
use modbus_gateway.Transport.Overlap.Held.{IsFinished}
use modbus_gateway.Transport.Overlap.Progress.{run_ends}
use modbus_gateway.TcpConnection.{TcpConnection}
use modbus_gateway.TcpConnection.Threads.{run_threads, handle_in_turn, run_threads-InTurns}
use modbus_gateway.RtuSlave.{RtuSlave}
use modbus_gateway.RtuSlave.Threads.{run_handlers, perform_in_turn, run_handlers-InTurns}
use modbus_gateway.Examples.Samples.{Frame, modbus}

abbrev message : ℕ → ModbusMessage Frame
message transaction_id = record {
  info = record {
    create_timestamp = 100;
    timeout_reached = false;
    source_id = 9;
    transaction_id = transaction_id;
  };
  buffer = some (record {
    type = tcp;
    unit_id = 5;
    size = 12;
    transaction_id = 1;
    pdu = 3 ∷ 0 ∷ [];
    fits = true;
  });
}

abbrev connection : TcpConnection
connection = record { id = 9; server_id = 2; request_info = some (message 77).info }

abbrev slave : RtuSlave
slave = record {
  id = 9;
  frame_type = rtu;
  id_generator = 77;
  request_info = some (message 77).info;
}

abbrev tasks : ℕ → Task Frame
tasks i = if i == 1 then request (message 78) else response (message 77)

tasks-IsBeginning : (i : ℕ) → IsBeginning (tasks i)
tasks-IsBeginning i = elim (Bool-cases (i == 1)) [ inl e ↦ rw e tt | inr e ↦ rw e tt ]

-- Thread 3 waits for the mutex while thread 2 has it; the request comes last.
abbrev schedule : List ℕ
schedule = 2 ∷ 3 ∷ 1 ∷ 2 ∷ 3 ∷ 2 ∷ 2 ∷ 3 ∷ 2 ∷ 1 ∷ 3 ∷ 3 ∷ 3 ∷ 1 ∷ 1 ∷ 1 ∷ 1 ∷ []

-- Only one of the two threads sends the answer.
second_sends :
    (run_threads modbus (default_router 8 4) connection tasks schedule).tasks 2
    ≡ finished (
        start_send
          (record {
            type = tcp;
            unit_id = 5;
            size = 12;
            transaction_id = 77;
            pdu = 3 ∷ 0 ∷ [];
            fits = true;
          })
          12
        ∷ [])
unfolding run default_router
second_sends = refl

third_refuses :
    (run_threads modbus (default_router 8 4) connection tasks schedule).tasks 3 ≡ finished []
unfolding run default_router
third_refuses = refl

run_threads-InTurns_example :
    InTurns
      (handle_in_turn modbus (default_router 8 4) connection tasks)
      (run_threads modbus (default_router 8 4) connection tasks schedule)
run_threads-InTurns_example =
    run_threads-InTurns modbus (default_router 8 4) connection tasks schedule tasks-IsBeginning

run_handlers-InTurns_example :
    InTurns
      (perform_in_turn modbus (default_router 8 4) slave tasks)
      (run_handlers modbus (default_router 8 4) slave tasks schedule)
run_handlers-InTurns_example =
    run_handlers-InTurns modbus (default_router 8 4) slave tasks schedule tasks-IsBeginning

run_ends_example :
    (rest : List ℕ) × IsFinished (
      (run 9
          (λ m. [])
          (λ m. [])
          ((2 ∷ 3 ∷ 2 ∷ []) ++ rest)
          (record {
            request_info = make_synchronized connection.request_info;
            tasks = tasks;
          })).tasks
        3)
run_ends_example = run_ends 9 (λ m. []) (λ m. []) connection.request_info tasks (2 ∷ 3 ∷ 2 ∷ []) 3
