-- ===== src/RtuSlave/Threads.antt =====
-- The handlers of an RTU slave on several threads, against its handlers in one step each.
use modbus_gateway.Base.{ℕ, refl, none, some, List, [], ◌∷◌}
use modbus_gateway.Modbus.{Modbus}
use modbus_gateway.Router.{Router}
use modbus_gateway.Message.{ModbusMessage, modbus_message}
use modbus_gateway.Synchronized.{make_synchronized}
use modbus_gateway.Transport.{Effect, undefined_behaviour}
use modbus_gateway.Transport.Overlap.{Task, request, response, finished, Threads, run}
use modbus_gateway.Transport.Overlap.Turns.{Whole, Turns, take_turns, IsWhole, IsBeginning, InTurns}
use modbus_gateway.Transport.Overlap.Order.{run-InTurns}
use modbus_gateway.RtuSlave.{
  RtuSlave, accept_request, route_message, receive, make_response, response_frame, write_frame,
}

module _ {Buf : Type 0} (modbus : Modbus Buf) (router : Router) where
  -- What the handler of a read does behind its access, and StartWriteTask behind that of MakeResponse.
  abbrev pub route_request : RtuSlave → ModbusMessage Buf → List (Effect Buf)
  route_request c m = elim m.buffer [
    | none ↦ undefined_behaviour ∷ []
    | some b ↦ route_message modbus router b (modbus_message m) c
  ]

  abbrev pub write_response : RtuSlave → ModbusMessage Buf → List (Effect Buf)
  write_response c m =
      write_frame modbus (elim m.buffer [ none ↦ none | some b ↦ some (response_frame modbus c b) ])

  -- Handlers of the slave on threads that take turns at each step.
  abbrev pub run_handlers : RtuSlave → (ℕ → Task Buf) → List ℕ → Threads Buf
  run_handlers c tasks schedule =
      run c.id (route_request c) (write_response c) schedule
        (record { request_info = make_synchronized c.request_info; tasks = tasks })

  -- Handlers of the slave in one step each.
  pub perform : RtuSlave → Whole Buf
  perform c (request m) info =
      let (c', es) = accept_request modbus router (some m) (record c { request_info = info }) in
      (c'.request_info, es)
  perform c (response m) info =
      let (c', es) = receive modbus (modbus_message m) (record c { request_info = info }) in
      (c'.request_info, es)
  perform c (finished es) info = (info, es)
  perform c _ info = (info, [])

  abbrev pub perform_in_turn : RtuSlave → (ℕ → Task Buf) → List ℕ → Turns Buf
  perform_in_turn c tasks order =
      take_turns (perform c) order (record { request_info = c.request_info; tasks = tasks })

  perform-IsWhole : (c : RtuSlave) → IsWhole c.id (route_request c) (write_response c) (perform c)
  unfolding perform accept_request receive make_response
  perform-IsWhole c = record {
    of_request = λ m o. refl;
    of_foreign = λ m o k. rw k refl;
    of_unasked = λ m k. rw k refl;
    of_other = λ m last k r. rw (k, r) refl;
    of_matching = λ m last k r. rw (k, r) refl;
  }

  -- Whatever handlers of an RTU slave overlap on how many threads, and in whatever steps the threads
  -- take turns: there is an order of the handlers such that the handlers in one step each, in this
  -- order, leave the same last request, have the same effects for each thread that has ended, and
  -- have not run for a thread that is still at its beginning. All threads start at the beginning of
  -- the handler of a valid request or of Receive.
  pub run_handlers-InTurns :
      (c : RtuSlave) (tasks : ℕ → Task Buf) (schedule : List ℕ)
      → ((i : ℕ) → IsBeginning (tasks i))
      → InTurns (perform_in_turn c tasks) (run_handlers c tasks schedule)
  run_handlers-InTurns c tasks schedule h =
      run-InTurns c.id (route_request c) (write_response c) (perform c) (perform-IsWhole c) schedule
        c.request_info tasks h
