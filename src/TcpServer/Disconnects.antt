-- ===== src/TcpServer/Disconnects.antt =====
-- A connection that ends, from its handler to the server that accepted it.
use modbus_gateway.Base.{ℕ, ◌≡◌, true, false, some, [], ◌∷◌, arith}
use modbus_gateway.Asio.{ErrorCode, is_cancelled}
use modbus_gateway.Exchange
use modbus_gateway.Exchange.{Exchange}
use modbus_gateway.Modbus.{Modbus}
use modbus_gateway.Router.{Router}
use modbus_gateway.Message.{client_disconnect}
use modbus_gateway.Transport.{deliver}
use modbus_gateway.TcpConnection
use modbus_gateway.TcpConnection.{TcpConnection}
use modbus_gateway.TcpServer
use modbus_gateway.TcpServer.{TcpServer}
use modbus_gateway.TcpServer.Clients.{Lacks, IsSound, disconnect_client-forgets}

module _ {Buf Table : Type 0} (modbus : Modbus Buf) (exchange : Exchange Table)
    (laws : Exchange.Laws exchange) where
  -- With the documented behaviour of the exchange: if the receive of a connection ends with a closed
  -- peer, a reset or a cancellation while the exchange exists, the connection only sends one message,
  -- to its server. A server whose map holds different, registered ids, and which gets that message
  -- while the exchange exists, has the connection neither in its map nor registered afterwards.
  pub closed_connection_forgotten :
      (router : Router) (c : TcpConnection) (ec : ErrorCode) (b : Buf) (size now : ℕ)
      (s : TcpServer) (t : Table)
      → is_cancelled ec ≡ true
      → IsSound exchange laws s t
      → (TcpConnection.on_receive modbus router true (some ec) b size now c
          ≡ (c, deliver c.server_id (client_disconnect c.id) ∷ []))
        × (let o = TcpServer.receive exchange {Buf = Buf} true (client_disconnect c.id) s t in
            Lacks c.id o.0.client_db × (exchange.registered o.1 c.id ≡ false))
  unfolding TcpConnection.on_receive TcpServer.receive
  closed_connection_forgotten router c ec b size now s t h v =
      (ground arith, disconnect_client-forgets exchange laws c.id s t v)
