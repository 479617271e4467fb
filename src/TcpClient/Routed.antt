-- ===== src/TcpClient/Routed.antt =====
-- The master that talks to a TCP server keeps to the routing table.
use modbus_gateway.Base.{
  ℕ, ◌≡◌, ◌∙◌, Bool, true, false, Option, none, some, List, [], ◌∷◌, All-concat, arith,
}
use modbus_gateway.Asio.{Peer, stays, left, leaves, Completion}
use modbus_gateway.Modbus
use modbus_gateway.Modbus.{Modbus, tcp}
use modbus_gateway.Router.{Router}
use modbus_gateway.LimitQueue.{push}
use modbus_gateway.LimitQueue.Laws.{All-push}
use modbus_gateway.Message.{ModbusMessage, Message, modbus_message, client_disconnect}
use modbus_gateway.Transport.{drop_expired}
use modbus_gateway.TcpClient.{
  TcpClient, CurrentMessage, Outcome, connected, request_frame, take_message, queue_process,
  process_message, receive, on_connect, on_send, on_wait, on_receive, make_response, forward,
}
use modbus_gateway.Transport.Traffic.{
  IsRequestFor, IsAllowed, IsAddressed, AllRequests, AllAllowed, drop_expired-AllRequests,
}

module _ {Buf : Type 0} (modbus : Modbus Buf) (router : Router) (is_master : ℕ → Bool)
    (Past : Type 0) (i : ℕ) where
  -- The request in progress is not from a master.
  abbrev pub IsOwed : Option (CurrentMessage Buf) → Type 0
  IsOwed none = Unit
  IsOwed (some current) = is_master current.modbus_message.info.source_id ≡ false

  abbrev pub Serves : TcpClient Buf → Type 0
  Serves c =
      AllRequests modbus router is_master Past i c.message_queue.queue × IsOwed c.current_message

  abbrev pub Keeps : Outcome Buf → Type 0
  Keeps o = Serves o.0 × AllAllowed modbus router is_master Past i o.1

  module _ (laws : Modbus.Laws modbus) where
    request_frame-unit_id :
        (id : ℕ) (b : Buf) → modbus.get_unit_id (request_frame modbus id b) ≡ modbus.get_unit_id b
    request_frame-unit_id id b =
        laws.get_unit_id-set_transaction_id id (modbus.tcp_update (modbus.convert_to tcp b))
        ∙ laws.get_unit_id-tcp_update (modbus.convert_to tcp b)
        ∙ laws.get_unit_id-convert_to tcp b

    take_message-Keeps :
        (ms : List (ModbusMessage Buf)) (c : TcpClient Buf)
        → AllRequests modbus router is_master Past i ms
        → IsOwed c.current_message
        → Keeps (take_message modbus ms c)
    unfolding take_message
    take_message-Keeps [] c h o = ((tt, o), tt)
    take_message-Keeps (m ∷ ms) c ((b, e, r, s), h) o =
        rw e ((h, s), ((λ _. rw (request_frame-unit_id _ b) r), tt))

    queue_process-Keeps :
        (clock : ℕ → ℕ) (c : TcpClient Buf) → Serves c → Keeps (queue_process modbus clock c)
    unfolding queue_process take_message
    queue_process-Keeps clock c h = ground (
      arith,
      take_message-Keeps (drop_expired c.timeout clock c.message_queue.queue) c
          (drop_expired-AllRequests modbus router is_master Past i c.timeout clock
            c.message_queue.queue h.0)
          h.1,
    )

    -- A request for this master that arrives joins the others.
    pub receive-Keeps :
        (m : Message Buf) (clock : ℕ → ℕ) (c : TcpClient Buf)
        → is_master i ≡ true
        → IsAddressed modbus router is_master Past (i, m)
        → Serves c
        → Keeps (receive modbus m clock c)
    unfolding receive process_message
    receive-Keeps (modbus_message m) clock c here a (q, o) =
        queue_process-Keeps clock (record c { message_queue = push m c.message_queue })
          (All-push (IsRequestFor modbus router is_master Past i) m c.message_queue q (a here), o)
    receive-Keeps (client_disconnect j) clock c here a h = (h, tt)

    pub on_connect-Keeps :
        (peer : Peer) (ec : Completion) (clock : ℕ → ℕ) (c : TcpClient Buf)
        → Serves c
        → Keeps (on_connect modbus peer ec clock c)
    unfolding on_connect
    on_connect-Keeps peer (some ec) clock c h = (h, tt)
    on_connect-Keeps left none clock c h = (h, (tt, tt))
    on_connect-Keeps leaves none clock c h = (h, (tt, tt))
    on_connect-Keeps stays none clock c h =
        queue_process-Keeps clock (record c { state = connected }) h

    pub on_send-Keeps :
        (ec : Completion) (c : TcpClient Buf) → Serves c → Keeps (on_send modbus ec c)
    unfolding on_send
    on_send-Keeps (some ec) c h = ground (arith, h)
    on_send-Keeps none c h = (h, (tt, (tt, tt)))

    pub on_wait-Keeps :
        (ec : Completion) (c : TcpClient Buf) → Serves c → Keeps (on_wait modbus ec c)
    unfolding on_wait
    on_wait-Keeps (some ec) c h = (h, tt)
    on_wait-Keeps none c h = (h, (tt, tt))

    make_response-Keeps :
        (b : Buf) (size : ℕ) (c : TcpClient Buf)
        → Serves c
        → Keeps
            ((make_response modbus b size c).1, forward modbus (make_response modbus b size c).0)
    unfolding make_response
    make_response-Keeps b size c h = ground (arith, h)

    pub on_receive-Keeps :
        (ec : Completion) (b : Buf) (size : ℕ) (clock : ℕ → ℕ) (c : TcpClient Buf)
        → Serves c
        → Keeps (on_receive modbus true ec b size clock c)
    unfolding on_receive
    on_receive-Keeps (some ec) b size clock c h = ground (arith, h)
    on_receive-Keeps none b size clock c h =
        let (response, c') = make_response modbus b size c in
        let (serves, sends) = make_response-Keeps b size c h in
        let (serves', sends') =
          queue_process-Keeps clock (record c' { state = connected }) serves in
        (
          serves',
          (
            tt,
            All-concat (IsAllowed modbus router is_master Past i) (forward modbus response) _ sends
                sends',
          ),
        )
