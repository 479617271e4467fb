-- ===== src/TcpServer/Histories.antt =====
-- A server over any sequence of events.
use modbus_gateway.Base.{ℕ, Bool, List, [], ◌∷◌}
use modbus_gateway.Asio.{Peer, Completion}
use modbus_gateway.Exchange
use modbus_gateway.Exchange.{Exchange}
use modbus_gateway.Message.{Message, modbus_message, client_disconnect}
use modbus_gateway.TcpServer.{TcpServer, Outcome, on_accept, receive, stop, make_tcp_server}
use modbus_gateway.TcpServer.Clients.{IsSound, on_accept-IsSound, disconnect_client-IsSound}

pub data Event (Buf : Type 0) : Type 0 where
  accept_ends : Bool → Peer → Completion → Event Buf
  message_arrives : Bool → Message Buf → Event Buf
  stops : Bool → Event Buf

module _ {Buf Table : Type 0} (exchange : Exchange Table) where
  abbrev pub handle : Event Buf → TcpServer → Table → Outcome exchange
  handle (accept_ends alive peer ec) s t = on_accept exchange alive peer ec s t
  handle (message_arrives alive m) s t = receive exchange alive m s t
  handle (stops alive) s t = stop exchange alive s t

  unfoldable pub run : List (Event Buf) → TcpServer → Table → TcpServer × Table
  run [] s t = (s, t)
  run (e ∷ es) s t = let o = handle e s t in run es o.0 o.1

module _ {Buf Table : Type 0} (exchange : Exchange Table) (laws : Exchange.Laws exchange) where
  handle-IsSound :
      (e : Event Buf) (s : TcpServer) (t : Table)
      → IsSound exchange laws s t
      → let o = handle exchange e s t in IsSound exchange laws o.0 o.1
  unfolding receive stop
  handle-IsSound (accept_ends alive peer ec) s t v =
      on_accept-IsSound exchange laws alive peer ec s t v
  handle-IsSound (message_arrives alive (client_disconnect i)) s t v =
      disconnect_client-IsSound exchange laws alive i s t v
  handle-IsSound (message_arrives alive (modbus_message m)) s t v = v
  handle-IsSound (stops alive) s t v = record { distinct = tt; registered = tt }

  run-IsSound :
      (es : List (Event Buf)) (s : TcpServer) (t : Table)
      → IsSound exchange laws s t
      → let o = run exchange es s t in IsSound exchange laws o.0 o.1
  unfolding run
  run-IsSound [] s t v = v
  run-IsSound (e ∷ es) s t v =
      let o = handle exchange e s t in run-IsSound es o.0 o.1 (handle-IsSound e s t v)

  -- With the documented behaviour of the exchange: whatever connections are accepted, fail or
  -- disconnect, and whenever the server is stopped, the ids in the map of a server that was just
  -- made are different, and each is registered with the exchange.
  pub run-make-IsSound :
      (id : ℕ) (es : List (Event Buf)) (t : Table)
      → let o = run exchange es (make_tcp_server id) t in IsSound exchange laws o.0 o.1
  unfolding make_tcp_server
  run-make-IsSound id es t =
      run-IsSound es (make_tcp_server id) t (record { distinct = tt; registered = tt })
