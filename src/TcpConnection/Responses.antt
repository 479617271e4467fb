-- ===== src/TcpConnection/Responses.antt =====
-- Which response a connection sends.
use modbus_gateway.Base.{ℕ, ◌≡◌, refl, Bool, true, false, ◌&&◌, none, some, [], ◌∷◌, ◌==◌, arith}
use modbus_gateway.Modbus.{Modbus, Laws, tcp, Carries, set_transaction_id-Carries}
use modbus_gateway.Router.{Router, route}
use modbus_gateway.Message.{
  ModbusMessageInfo, ModbusMessage, Message, modbus_message, client_disconnect,
}
use modbus_gateway.Transport.{start_send, deliver}
use modbus_gateway.TcpConnection.{
  TcpConnection, make_request, on_receive, make_response, receive, response_frame,
  start_receive_task,
}

-- The message answers the last request: it is addressed to this connection and has the request's
-- transaction id.
abbrev pub answers : {Buf : Type 0} → TcpConnection → ModbusMessage Buf → Bool
answers c m = elim c.request_info [
  | none ↦ false
  | some last ↦ c.id == m.info.source_id && last.transaction_id == m.info.transaction_id
]

module _ {Buf : Type 0} (modbus : Modbus Buf) where
  -- A message that does not answer the last request of a connection, since it is for another actor
  -- or another request or there is none, changes nothing, and nothing is sent.
  pub receive_refuses :
      (c : TcpConnection) (m : ModbusMessage Buf)
      → answers c m ≡ false
      → receive modbus (modbus_message m) c ≡ (c, [])
  unfolding receive make_response
  receive_refuses c m h = ground arith

  -- With the documented behaviour of the buffers, a message with a buffer that answers the last
  -- request of a connection is sent in one frame, and the request is forgotten. The frame is of the TCP
  -- type, has the transaction id of that request and the unit id, the function code and the data of
  -- the buffer, and its length fits them.
  pub receive_matching :
      (laws : Laws modbus) (c : TcpConnection) (m : ModbusMessage Buf) (b : Buf)
      (last : ModbusMessageInfo)
      → answers c m ≡ true
      → c.request_info ≡ some last
      → m.buffer ≡ some b
      → (frame : Buf) × (receive modbus (modbus_message m) c
          ≡ (record c { request_info = none }, start_send frame (modbus.get_adu_size frame) ∷ []))
        × (modbus.get_transaction_id frame ≡ last.transaction_id)
        × Carries modbus laws tcp b frame
  unfolding receive make_response
  receive_matching laws c m b last h l e = (
    response_frame modbus m.info.transaction_id b,
    ground arith,
    ground (
      arith,
      laws.get_transaction_id-set_transaction_id m.info.transaction_id
          (modbus.tcp_update (modbus.convert_to tcp b)),
    ),
    set_transaction_id-Carries modbus laws m.info.transaction_id b,
  )

  -- A connection sends no two messages for one request: after a message that answered the last
  -- request, whatever message comes next changes nothing, and nothing is sent.
  pub receive_once :
      (c : TcpConnection) (m : ModbusMessage Buf) (m' : Message Buf)
      → answers c m ≡ true
      → let c' = (receive modbus (modbus_message m) c).0 in receive modbus m' c' ≡ (c', [])
  unfolding receive make_response
  receive_once c m (modbus_message m') h = ground arith
  receive_once c m (client_disconnect i) h = refl

  -- If a receive succeeds while the exchange exists, with a size that is accepted and a valid frame
  -- whose unit id is routed, then the frame becomes the last request of the connection, in place of
  -- any other, and is sent to the routed actor, and the next receive is started. The request
  -- carries the id of the connection, the transaction id of the frame, the time, and the frame
  -- itself.
  pub on_receive_request :
      (router : Router) (b : Buf) (size now actor : ℕ) (c : TcpConnection)
      → (modbus.set_adu_size size b).0 ≡ true
      → modbus.tcp_check_no_error (modbus.set_adu_size size b).1 ≡ true
      → route router (modbus.get_unit_id (modbus.set_adu_size size b).1) ≡ some actor
      → (m : ModbusMessage Buf) × (on_receive modbus router true none b size now c ≡ (
        record c { request_info = some m.info },
        deliver actor (modbus_message m) ∷ start_receive_task modbus ∷ [],
      ))
        × (m.info.source_id ≡ c.id)
        × (m.info.transaction_id ≡ modbus.get_transaction_id (modbus.set_adu_size size b).1)
        × (m.info.create_timestamp ≡ now)
        × (m.info.timeout_reached ≡ false)
        × (m.buffer ≡ some (modbus.set_adu_size size b).1)
  unfolding on_receive make_request
  on_receive_request router b size now actor c v k r = (
    record {
      info = record {
        create_timestamp = now;
        timeout_reached = false;
        source_id = c.id;
        transaction_id = modbus.get_transaction_id (modbus.set_adu_size size b).1;
      };
      buffer = some (modbus.set_adu_size size b).1;
    },
    ground arith,
    refl,
    refl,
    refl,
    refl,
    refl,
  )
