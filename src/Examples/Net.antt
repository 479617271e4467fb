-- ===== src/Examples/Net.antt =====
-- The whole gateway at a concrete input: a client connects and sends a request, which reaches its
-- master.
use modbus_gateway.Base.{
  ℕ, ◌≡◌, refl, true, false, none, some, List, [], ◌∷◌, ◌++◌, replicate, All, arith,
}
use modbus_gateway.Asio.{stays}
use modbus_gateway.Modbus.{tcp}
use modbus_gateway.Router.{set_route, route}
use modbus_gateway.Exception.{ok}
use modbus_gateway.LimitQueue.{unlimited, push}
use modbus_gateway.Message.{modbus_message, make_info, check_timeout}
use modbus_gateway.Transport.{drop_expired, start_receive, start_connect, start_send, deliver}
use modbus_gateway.Config.Types.{tcp_client, tcp_server}
use modbus_gateway.Config.Reader.{validate}
use modbus_gateway.Gateway.{make_masters, make_slaves, make_router}
use modbus_gateway.Gateway.Startup.{Gateway, start_gateway, start_program}
use modbus_gateway.TcpClient
use modbus_gateway.TcpServer
use modbus_gateway.TcpConnection
use modbus_gateway.Network.{Event, ends, arrives, accepts, connects, receives, run}
use modbus_gateway.Network.Launch.{launch}
use modbus_gateway.Network.Safety.{SendsOwn, start_program-SendsOwn}
use modbus_gateway.Examples.Samples.{Frame, modbus, modbus-Laws, ids, exchange, exchange-Laws}
use modbus_gateway.Examples.Documents.{json, asio, config, config_read}
use modbus_gateway.Examples.Start.{system}
use Prim.Native.String.{String}

-- The gateway that the configuration of the sample document makes.
abbrev gateway : Gateway String (List ℕ)
gateway = record {
  masters =
      record {
        config = tcp_client (record {
          master = record { timeout = 1000; unit_id_set = record { begin = 10; end = 20 } ∷ [] };
          address = "10.0.0.1";
          port = 503;
        });
        actor = 1;
      }
      ∷ [];
  router = record { route_map = replicate 10 0 ++ (replicate 11 1 ++ replicate 234 0) };
  slaves = record { config = tcp_server (record { address = ""; port = 502 }); actor = 3 } ∷ [];
  table = 3 ∷ 1 ∷ [];
}

gateway_made : start_gateway system exchange 255 config [] ≡ ok gateway
unfolding start_gateway make_masters make_slaves make_router set_route
gateway_made = refl

gateway_started : start_program json asio ids system exchange "text" [] ≡ ok gateway
unfolding start_program validate
gateway_started = rw (config_read) gateway_made

abbrev request : Frame
request = record {
  type = tcp;
  unit_id = 15;
  size = 0;
  transaction_id = 9;
  pdu = 3 ∷ 0 ∷ [];
  fits = true;
}

-- A client connects and sends a request; the master connects to its server and sends the frame.
abbrev course : List (Event Frame)
course =
    ends 3 (accepts stays none)
    ∷ ends 7 (receives none request 12 (λ k. 5))
    ∷ arrives 0 (λ k. 6)
    ∷ ends 1 (connects stays none (λ k. 7))
    ∷ []

abbrev sent : Frame
sent = record {
  type = tcp;
  unit_id = 15;
  size = 12;
  transaction_id = 1;
  pdu = 3 ∷ 0 ∷ [];
  fits = true;
}

abbrev fresh : Frame
fresh = record { type = tcp; unit_id = 0; size = 260; transaction_id = 0; pdu = []; fits = false }

log_at_end :
    (run modbus exchange gateway.router course (launch modbus exchange gateway)).log
    ≡ (7, start_receive fresh 260)
      ∷ (
        7,
        deliver 1 (
            modbus_message
              (record { info = make_info 5 7 9; buffer = some (record request { size = 12 }) })),
      )
      ∷ (7, start_receive fresh 260)
      ∷ (1, start_connect)
      ∷ (1, start_send sent 12)
      ∷ []
unfolding run launch make_info unlimited push drop_expired check_timeout route TcpServer.start
    TcpServer.on_accept TcpServer.set_id TcpServer.make_tcp_server TcpConnection.start
    TcpConnection.on_receive TcpConnection.make_request TcpConnection.set_id
    TcpConnection.make_tcp_connection TcpClient.receive TcpClient.process_message
    TcpClient.queue_process TcpClient.on_connect TcpClient.set_id TcpClient.make_tcp_client
log_at_end = refl

start_program-SendsOwn_example :
    All
      (SendsOwn modbus ids 0 gateway course)
      (run modbus exchange gateway.router course (launch modbus exchange gateway)).log
start_program-SendsOwn_example =
    start_program-SendsOwn modbus modbus-Laws json asio ids system exchange exchange-Laws
      (omega arith) "text" [] gateway gateway_started course
