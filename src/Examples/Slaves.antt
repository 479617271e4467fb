-- ===== src/Examples/Slaves.antt =====
-- The connections, the RTU slave and the server at concrete inputs.
use modbus_gateway.Base.{ℕ, ◌≤◌, ◌≡◌, refl, true, false, none, some, List, [], ◌∷◌, arith}
use modbus_gateway.Asio.{eof, stays}
use modbus_gateway.Modbus.{rtu, tcp, Carries}
use modbus_gateway.Message.{ModbusMessageInfo, ModbusMessage, modbus_message, client_disconnect}
use modbus_gateway.Router.{default_router}
use modbus_gateway.Transport.{start_send, deliver, sends_of, requests_of}
use modbus_gateway.TcpConnection
use modbus_gateway.TcpConnection.{TcpConnection, make_tcp_connection, start_receive_task}
use modbus_gateway.TcpConnection.Responses.{receive_matching}
use modbus_gateway.TcpConnection.World as ConnectionWorld
use modbus_gateway.TcpConnection.World.{responses-le-requests}
use modbus_gateway.RtuSlave
use modbus_gateway.RtuSlave.{RtuSlave, make_rtu_slave, start_read_task, next_id}
use modbus_gateway.RtuSlave.Responses.{write_matching}
use modbus_gateway.RtuSlave.World as SlaveWorld
use modbus_gateway.RtuSlave.World.{writes-le-requests}
use modbus_gateway.TcpServer
use modbus_gateway.TcpServer.{TcpServer, make_tcp_server}
use modbus_gateway.TcpServer.Clients.{IsSound, Lacks}
use modbus_gateway.TcpServer.Disconnects.{closed_connection_forgotten}
use modbus_gateway.TcpServer.Histories
use modbus_gateway.TcpServer.Histories.{run-make-IsSound}
use modbus_gateway.Examples.Samples.{Frame, modbus, modbus-Laws, exchange, exchange-Laws}

abbrev request : Frame
request = record {
  type = tcp;
  unit_id = 5;
  size = 12;
  transaction_id = 77;
  pdu = 3 ∷ 0 ∷ [];
  fits = true;
}

abbrev info_of : ℕ → ℕ → ModbusMessageInfo
info_of source_id transaction_id = record {
  create_timestamp = 100;
  timeout_reached = false;
  source_id = source_id;
  transaction_id = transaction_id;
}

abbrev response_of : ℕ → ℕ → ModbusMessage Frame
response_of source_id transaction_id = record {
  info = info_of source_id transaction_id;
  buffer = some request;
}

abbrev connection : TcpConnection
connection = record { id = 9; server_id = 2; request_info = some (info_of 9 77) }

receive_matching_example :
    (frame : Frame) × (TcpConnection.receive modbus (modbus_message (response_of 9 77)) connection
      ≡ (record connection { request_info = none }, start_send frame frame.size ∷ []))
    × (frame.transaction_id ≡ 77)
    × Carries modbus modbus-Laws tcp request frame
receive_matching_example =
    receive_matching modbus modbus-Laws connection (response_of 9 77) request (info_of 9 77) refl
      refl refl

abbrev exchanged : List (ConnectionWorld.Event Frame)
exchanged =
    ConnectionWorld.receive_ends true none request 12 50
    ∷ ConnectionWorld.message_arrives (modbus_message (response_of 9 77))
    ∷ ConnectionWorld.send_ends none
    ∷ ConnectionWorld.receive_ends true (some eof) request 0 60
    ∷ []

responses-le-requests_example :
    let effects =
      (ConnectionWorld.run modbus (default_router 255 3) exchanged (make_tcp_connection 9 2)).1 in
    sends_of effects ≤ requests_of effects
responses-le-requests_example = responses-le-requests modbus (default_router 255 3) 9 2 exchanged

abbrev slave : RtuSlave
slave = record { id = 4; frame_type = rtu; id_generator = 7; request_info = some (info_of 4 7) }

write_matching_example :
    (frame : Frame) × (RtuSlave.receive modbus (modbus_message (response_of 4 7)) slave
      ≡ (record slave { request_info = none }, start_send frame frame.size ∷ []))
    × Carries modbus modbus-Laws rtu request frame
write_matching_example = write_matching modbus modbus-Laws slave (response_of 4 7) request refl refl

abbrev served : List (SlaveWorld.Event Frame)
served =
    SlaveWorld.read_ends true none request 12 50
    ∷ SlaveWorld.message_arrives (modbus_message (response_of 4 1))
    ∷ SlaveWorld.write_ends none
    ∷ []

writes-le-requests_example :
    let effects = (SlaveWorld.run modbus (default_router 255 3) served (make_rtu_slave 4 rtu)).1 in
    sends_of effects ≤ requests_of effects
writes-le-requests_example = writes-le-requests modbus (default_router 255 3) 4 rtu served

abbrev history : List (TcpServer.Histories.Event Frame)
history =
    Histories.accept_ends true stays none
    ∷ Histories.accept_ends true stays none
    ∷ Histories.message_arrives true (client_disconnect 3)
    ∷ []

run-make-IsSound_example :
    let o = Histories.run exchange history (make_tcp_server 1) (1 ∷ []) in
    IsSound exchange exchange-Laws o.0 o.1
run-make-IsSound_example = run-make-IsSound exchange exchange-Laws 1 history (1 ∷ [])

abbrev server : TcpServer
server = record { id = 1; client_db = 3 ∷ 8 ∷ [] }

server-IsSound : IsSound exchange exchange-Laws server (8 ∷ 3 ∷ 1 ∷ [])
server-IsSound = record {
  distinct = ((λ e. omega (arith, e), tt), (tt, tt));
  registered = (refl, (refl, tt));
}

abbrev closing : TcpConnection
closing = record { id = 3; server_id = 1; request_info = none }

closed_connection_forgotten_example :
    (TcpConnection.on_receive modbus (default_router 255 3) true (some eof) request 0 60 closing
      ≡ (closing, deliver 1 (client_disconnect 3) ∷ []))
    × (let o =
          TcpServer.receive exchange {Buf = Frame} true
            (client_disconnect 3)
            server
            (8 ∷ 3 ∷ 1 ∷ []) in
        Lacks 3 o.0.client_db × (exchange.registered o.1 3 ≡ false))
closed_connection_forgotten_example =
    closed_connection_forgotten modbus exchange exchange-Laws (default_router 255 3) closing eof
      request 0 60 server (8 ∷ 3 ∷ 1 ∷ []) refl server-IsSound
