-- ===== src/TcpConnection/Threads.antt =====
-- The handlers of a connection on several threads, against its handlers in one step each.
use modbus_gateway.Base.{ℕ, refl, none, some, List, [], ◌∷◌}
use modbus_gateway.Modbus.{Modbus}
use modbus_gateway.Router.{Router}
use modbus_gateway.Message.{ModbusMessage, modbus_message}
use modbus_gateway.Synchronized.{make_synchronized}
use modbus_gateway.Transport.{Effect, undefined_behaviour}
use modbus_gateway.Transport.Overlap.{Task, request, response, finished, Threads, run}
use modbus_gateway.Transport.Overlap.Turns.{Whole, Turns, take_turns, IsWhole, IsBeginning, InTurns}
use modbus_gateway.Transport.Overlap.Order.{run-InTurns}
use modbus_gateway.TcpConnection.{
  TcpConnection, accept_request, route_message, receive, make_response, response_frame, send_frame,
}

module _ {Buf : Type 0} (modbus : Modbus Buf) (router : Router) where
  -- What the handler of a read does behind its access, and StartSendTask behind that of MakeResponse.
  abbrev pub route_request : ModbusMessage Buf → List (Effect Buf)
  route_request m = elim m.buffer [
    | none ↦ undefined_behaviour ∷ []
    | some b ↦ route_message modbus router b (modbus_message m)
  ]

  abbrev pub send_response : ModbusMessage Buf → List (Effect Buf)
  send_response m = send_frame modbus (elim m.buffer [
    | none ↦ none
    | some b ↦ some (response_frame modbus m.info.transaction_id b)
  ])

  -- Handlers of the connection on threads that take turns at each step.
  abbrev pub run_threads : TcpConnection → (ℕ → Task Buf) → List ℕ → Threads Buf
  run_threads c tasks schedule =
      run c.id route_request send_response schedule
        (record { request_info = make_synchronized c.request_info; tasks = tasks })

  -- Handlers of the connection in one step each.
  pub handle : TcpConnection → Whole Buf
  handle c (request m) info =
      let (c', es) = accept_request modbus router (some m) (record c { request_info = info }) in
      (c'.request_info, es)
  handle c (response m) info =
      let (c', es) = receive modbus (modbus_message m) (record c { request_info = info }) in
      (c'.request_info, es)
  handle c (finished es) info = (info, es)
  handle c _ info = (info, [])

  abbrev pub handle_in_turn : TcpConnection → (ℕ → Task Buf) → List ℕ → Turns Buf
  handle_in_turn c tasks order =
      take_turns (handle c) order (record { request_info = c.request_info; tasks = tasks })

  handle-IsWhole : (c : TcpConnection) → IsWhole c.id route_request send_response (handle c)
  unfolding handle accept_request receive make_response
  handle-IsWhole c = record {
    of_request = λ m o. refl;
    of_foreign = λ m o k. rw k refl;
    of_unasked = λ m k. rw k refl;
    of_other = λ m last k r. rw (k, r) refl;
    of_matching = λ m last k r. rw (k, r) refl;
  }

  -- Whatever handlers of a connection overlap on how many threads, and in whatever steps the threads
  -- take turns: there is an order of the handlers such that the handlers in one step each, in this
  -- order, leave the same last request, have the same effects for each thread that has ended, and
  -- have not run for a thread that is still at its beginning. All threads start at the beginning of
  -- the handler of a valid request or of Receive.
  pub run_threads-InTurns :
      (c : TcpConnection) (tasks : ℕ → Task Buf) (schedule : List ℕ)
      → ((i : ℕ) → IsBeginning (tasks i))
      → InTurns (handle_in_turn c tasks) (run_threads c tasks schedule)
  run_threads-InTurns c tasks schedule h =
      run-InTurns c.id route_request send_response (handle c) (handle-IsWhole c) schedule
        c.request_info tasks h
