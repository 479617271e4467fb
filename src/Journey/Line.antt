-- ===== src/Journey/Line.antt =====
-- A request's way from a serial line through the gateway to another one, and back: from an RTU slave
-- over the router to an RTU master, and the response's way to the slave.
use modbus_gateway.Base.{ℕ, ◌+◌, ◌≡◌, refl, ◌∙◌, true, false, none, some, [], ◌∷◌, leb, arith}
use modbus_gateway.Modbus.{Modbus, Laws, increment, Carries, update-Carries}
use modbus_gateway.Router.{Router, route}
use modbus_gateway.Message.{ModbusMessage, Message, modbus_message, nanoseconds}
use modbus_gateway.Transport.{start_send, delivered}
use modbus_gateway.RtuMaster
use modbus_gateway.RtuMaster.{RtuMaster, CurrentMessage}
use modbus_gateway.RtuMaster.Requests.{receive-writes}
use modbus_gateway.RtuMaster.Responses.{on_read-delivered}
use modbus_gateway.RtuSlave
use modbus_gateway.RtuSlave.{RtuSlave, next_id}
use modbus_gateway.RtuSlave.Responses.{write_matching, on_read_request}
use modbus_gateway.Journey.{not_expired, reply}

module _ {Buf : Type 0} (modbus : Modbus Buf) where
  master_forwards :
      (master : RtuMaster Buf) (m : ModbusMessage Buf) (current : CurrentMessage Buf) (answer : Buf)
      (size : ℕ) (later : ℕ → ℕ)
      → master.current_message ≡ some current
      → current.modbus_message.info ≡ m.info
      → (modbus.set_adu_size size answer).0 ≡ true
      → modbus.check_no_error (modbus.set_adu_size size answer).1 ≡ true
      → delivered (RtuMaster.on_read modbus true none answer size later master).1
        ≡ (m.info.source_id, modbus_message (reply modbus m (modbus.set_adu_size size answer).1))
          ∷ []
  master_forwards master m current answer size later c i v k =
      on_read-delivered modbus true none answer size later master ∙ ground arith

  -- What becomes of a request: a slave that reads it hands one message to `actor`; a master that
  -- receives that message writes one frame with the contents of the request, in the frame type of its
  -- own line; when it has read `answer` after that, it hands one message to the slave; and the slave, in
  -- the state in which it accepted the request, writes one frame with the contents of the answer, in the
  -- frame type of its line.
  abbrev pub ComesAcross :
      Laws modbus
      → Router
      → RtuSlave
      → RtuMaster Buf
      → Buf
      → Buf
      → ℕ
      → ℕ
      → ℕ
      → ℕ
      → (ℕ → ℕ)
      → (ℕ → ℕ)
      → Type 0
  ComesAcross laws router slave master request answer request_size answer_size now actor clock
        later =
      let original = (modbus.set_adu_size request_size request).1 in
      let returned = (modbus.set_adu_size answer_size answer).1 in
      let accepted = RtuSlave.on_read modbus router true none request request_size now slave in
      (m : ModbusMessage Buf) × (delivered accepted.1 ≡ (actor, modbus_message m) ∷ [])
      × (let started = RtuMaster.receive modbus (modbus_message m) clock master in
          let written = RtuMaster.on_write modbus none started.0 in
          let ended = RtuMaster.on_read modbus true none answer answer_size later written.0 in
          (response : Message Buf) × (out : Buf) × (frame : Buf) × (started.1
            ≡ start_send out (modbus.get_adu_size out) ∷ [])
          × Carries modbus laws master.frame_type original out
          × (delivered ended.1 ≡ (slave.id, response) ∷ [])
          × ((RtuSlave.receive modbus response accepted.0).1
              ≡ start_send frame (modbus.get_adu_size frame) ∷ [])
          × Carries modbus laws slave.frame_type returned frame)

  -- With the documented behaviour of the buffers: a valid request frame that an RTU slave reads, whose
  -- unit id is routed to some actor, is delivered to that actor and nowhere else. If an RTU master
  -- with nothing to do receives that message before its timeout, it at once writes one frame, of the
  -- frame type of its own line and with the unit id, function code and data of the request; when it then
  -- reads a valid frame before anything else happens to it, exactly one message is delivered, to the
  -- slave. If the slave has read no other request and received no other message in between, it writes
  -- one frame, of the frame type of its line and with the unit id, function code and data of the answer.
  -- The length and the checksum of both frames fit.
  pub request_crosses :
      (laws : Laws modbus) (router : Router) (slave : RtuSlave) (master : RtuMaster Buf)
      (request answer : Buf) (request_size answer_size now actor : ℕ) (clock later : ℕ → ℕ)
      → let original = modbus.set_adu_size request_size request in
        let returned = modbus.set_adu_size answer_size answer in
        original.0 ≡ true
        → modbus.check_no_error original.1 ≡ true
        → route router (modbus.get_unit_id original.1) ≡ some actor
        → master.current_message ≡ none
        → master.message_queue.queue ≡ []
        → leb (now + nanoseconds master.timeout) (clock 0) ≡ false
        → returned.0 ≡ true
        → modbus.check_no_error returned.1 ≡ true
        → ComesAcross laws router slave master request answer request_size answer_size now actor
            clock later
  unfolding RtuMaster.on_write
  request_crosses laws router slave master request answer request_size answer_size now actor clock
        later valid checked routed free nothing live valid' checked' =
      let (m, e, src, tid, created, fresh, buf) =
        on_read_request modbus router request request_size now actor slave valid checked routed in
      let id = increment modbus.transaction_id_limit master.transaction_id_generator in
      let sized = (modbus.set_adu_size request_size request).1 in
      let returned = (modbus.set_adu_size answer_size answer).1 in
      let started = (RtuMaster.receive modbus (modbus_message m) clock master).0 in
      let current : CurrentMessage Buf = record {
        modbus_message = record m {
          buffer = some (RtuMaster.request_frame modbus master.frame_type sized);
        };
        id = id;
      } in
      let (out, cur) =
        receive-writes modbus m sized clock master free nothing
          (not_expired modbus m master.timeout now (clock 0) created fresh live) buf in
      let waiting : RtuSlave = record slave {
        id_generator = next_id modbus slave;
        request_info = some m.info;
      } in
      let (frame, sends, carries) =
        write_matching modbus laws waiting (reply modbus m returned) returned (ground (arith, src))
          refl in
      (
        m,
        rw e,
        (
          modbus_message (reply modbus m returned),
          RtuMaster.request_frame modbus master.frame_type sized,
          frame,
          out,
          update-Carries modbus laws master.frame_type sized,
          master_forwards started m current answer answer_size later cur refl valid' checked'
              ∙ rw src,
          rw (e, sends),
          carries,
        ),
      )
