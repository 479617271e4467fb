-- ===== src/Journey.antt =====
-- A request's way through the gateway and back: from a TCP client's connection over the router to
-- the master that talks to a TCP server, and the response's way to the connection.
pub mod Line
use modbus_gateway.Base.{ℕ, ◌≡◌, refl, ◌∙◌, true, false, none, some, [], ◌∷◌, ◌+◌, leb, arith}
use modbus_gateway.Modbus.{Modbus, Laws, increment, tcp, Carries, set_transaction_id-Carries}
use modbus_gateway.Router.{Router, route}
use modbus_gateway.Message.{ModbusMessage, Message, modbus_message, nanoseconds, check_timeout}
use modbus_gateway.Transport.{start_send, delivered}
use modbus_gateway.Transport.Expiry.{is_expired}
use modbus_gateway.TcpClient
use modbus_gateway.TcpClient.{TcpClient, CurrentMessage, connected, message_process}
use modbus_gateway.TcpClient.Requests.{receive-sends}
use modbus_gateway.TcpClient.Responses.{on_receive-delivered}
use modbus_gateway.TcpConnection
use modbus_gateway.TcpConnection.{TcpConnection}
use modbus_gateway.TcpConnection.Responses.{receive_matching, on_receive_request}

module _ {Buf : Type 0} (modbus : Modbus Buf) where
  not_expired :
      (m : ModbusMessage Buf) (timeout now time : ℕ)
      → m.info.create_timestamp ≡ now
      → m.info.timeout_reached ≡ false
      → leb (now + nanoseconds timeout) time ≡ false
      → is_expired timeout time m ≡ false
  unfolding check_timeout
  not_expired m timeout now time c f l = ground arith

  -- The message that answers `m` with the buffer.
  abbrev reply : ModbusMessage Buf → Buf → ModbusMessage Buf
  reply m b = record { info = m.info; buffer = some b }

  client_forwards :
      (client : TcpClient Buf) (m : ModbusMessage Buf) (current : CurrentMessage Buf) (answer : Buf)
      (size : ℕ) (later : ℕ → ℕ)
      → client.current_message ≡ some current
      → current.modbus_message.info ≡ m.info
      → (modbus.set_adu_size size answer).0 ≡ true
      → modbus.tcp_check_no_error (modbus.set_adu_size size answer).1 ≡ true
      → modbus.get_transaction_id (modbus.set_adu_size size answer).1 ≡ current.id
      → delivered (TcpClient.on_receive modbus true none answer size later client).1
        ≡ (m.info.source_id, modbus_message (reply m (modbus.set_adu_size size answer).1)) ∷ []
  client_forwards client m current answer size later c i v k t =
      on_receive-delivered modbus true none answer size later client ∙ ground arith

  -- What becomes of a request: a connection that receives it hands one message to `actor`; a client
  -- that receives that message sends the request's frame under the next id of its own; when it has
  -- received `answer` after that, it hands one message to the connection; and the connection, in the
  -- state in which it accepted the request, sends one frame, with the transaction id of the request and
  -- the contents of the answer.
  abbrev pub ComesBack :
      Laws modbus
      → Router
      → TcpConnection
      → TcpClient Buf
      → Buf
      → Buf
      → ℕ
      → ℕ
      → ℕ
      → ℕ
      → (ℕ → ℕ)
      → (ℕ → ℕ)
      → Type 0
  ComesBack laws router connection client request answer request_size answer_size now actor clock
        later =
      let original = (modbus.set_adu_size request_size request).1 in
      let returned = (modbus.set_adu_size answer_size answer).1 in
      let id = increment modbus.transaction_id_limit client.transaction_id_generator in
      let accepted =
        TcpConnection.on_receive modbus router true none request request_size now connection in
      (m : ModbusMessage Buf) × (delivered accepted.1 ≡ (actor, modbus_message m) ∷ [])
      × (let started = TcpClient.receive modbus (modbus_message m) clock client in
          let sent = TcpClient.on_send modbus none started.0 in
          let ended = TcpClient.on_receive modbus true none answer answer_size later sent.0 in
          (response : Message Buf) × (out : Buf) × (frame : Buf) × (started.1
            ≡ start_send out (modbus.get_adu_size out) ∷ [])
          × (modbus.get_transaction_id out ≡ id)
          × Carries modbus laws tcp original out
          × (delivered ended.1 ≡ (connection.id, response) ∷ [])
          × ((TcpConnection.receive modbus response accepted.0).1
              ≡ start_send frame (modbus.get_adu_size frame) ∷ [])
          × (modbus.get_transaction_id frame ≡ modbus.get_transaction_id original)
          × Carries modbus laws tcp returned frame)

  -- With the documented behaviour of the buffers: a valid request frame that a connection receives,
  -- whose unit id is routed to some actor, is delivered to that actor and nowhere else. If a
  -- connected client with nothing to do receives that message before its timeout, the client at once
  -- sends one TCP frame, with the next id of its own and the unit id, function code and data of the
  -- request; when a valid frame with that id comes back before anything else happens to the client,
  -- exactly one message is delivered, to the connection. If the connection has received no other
  -- request or message in between, it sends one TCP frame, with the transaction id of the request and
  -- the unit id, function code and data of the answer. The lengths in both frames fit.
  pub request_returns :
      (laws : Laws modbus) (router : Router) (connection : TcpConnection) (client : TcpClient Buf)
      (request answer : Buf) (request_size answer_size now actor : ℕ) (clock later : ℕ → ℕ)
      → let original = modbus.set_adu_size request_size request in
        let returned = modbus.set_adu_size answer_size answer in
        let id = increment modbus.transaction_id_limit client.transaction_id_generator in
        original.0 ≡ true
        → modbus.tcp_check_no_error original.1 ≡ true
        → route router (modbus.get_unit_id original.1) ≡ some actor
        → client.state ≡ connected
        → client.current_message ≡ none
        → client.message_queue.queue ≡ []
        → leb (now + nanoseconds client.timeout) (clock 0) ≡ false
        → returned.0 ≡ true
        → modbus.tcp_check_no_error returned.1 ≡ true
        → modbus.get_transaction_id returned.1 ≡ id
        → ComesBack laws router connection client request answer request_size answer_size now actor
            clock later
  unfolding TcpClient.on_send
  request_returns laws router connection client request answer request_size answer_size now actor
        clock later valid checked routed up free nothing live valid' checked' same =
      let (m, e, src, tid, created, fresh, buf) =
        on_receive_request modbus router request request_size now actor connection valid checked
          routed in
      let id = increment modbus.transaction_id_limit client.transaction_id_generator in
      let sized = (modbus.set_adu_size request_size request).1 in
      let returned = (modbus.set_adu_size answer_size answer).1 in
      let started = (TcpClient.receive modbus (modbus_message m) clock client).0 in
      let current : CurrentMessage Buf = record {
        modbus_message = record m { buffer = some (TcpClient.request_frame modbus id sized) };
        id = id;
      } in
      let (out, cur) =
        receive-sends modbus m sized clock client up free nothing
          (not_expired m client.timeout now (clock 0) created fresh live) buf in
      let waiting : TcpConnection = record connection { request_info = some m.info } in
      let (frame, sends, ids, carries) =
        receive_matching modbus laws waiting (reply m returned) returned m.info
          (ground (arith, src)) refl refl in
      (
        m,
        rw e,
        (
          modbus_message (reply m returned),
          TcpClient.request_frame modbus id sized,
          frame,
          out,
          laws.get_transaction_id-set_transaction_id id
              (modbus.tcp_update (modbus.convert_to tcp sized)),
          set_transaction_id-Carries modbus laws id sized,
          client_forwards started m current answer answer_size later cur refl valid' checked' same
              ∙ rw src,
          rw (e, sends),
          ids ∙ tid,
          carries,
        ),
      )
