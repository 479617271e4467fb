-- ===== src/RtuMaster/Routed.antt =====
-- The master on a serial line keeps to the routing table.
use modbus_gateway.Base.{
  ℕ, ◌≡◌, ◌∙◌, Bool, true, false, Option, none, some, List, [], ◌∷◌, All-concat, arith,
}
use modbus_gateway.Asio.{Completion}
use modbus_gateway.Modbus
use modbus_gateway.Modbus.{Modbus, FrameType}
use modbus_gateway.Router.{Router}
use modbus_gateway.LimitQueue.{push}
use modbus_gateway.LimitQueue.Laws.{All-push}
use modbus_gateway.Message.{ModbusMessage, Message, modbus_message, client_disconnect}
use modbus_gateway.Transport.{drop_expired}
use modbus_gateway.RtuMaster.{
  RtuMaster, CurrentMessage, Outcome, request_frame, take_message, start_message_task,
  queue_process, process_message, receive, on_write, on_wait, on_read, make_response, forward,
}
use modbus_gateway.Transport.Traffic.{
  IsRequestFor, IsAllowed, IsAddressed, AllRequests, AllAllowed, drop_expired-AllRequests,
}

module _ {Buf : Type 0} (modbus : Modbus Buf) (router : Router) (is_master : ℕ → Bool)
    (Past : Type 0) (i : ℕ) where
  -- The request in progress is not from a master.
  abbrev pub IsOwed : Option (CurrentMessage Buf) → Type 0
  IsOwed none = Unit
  IsOwed (some current) = is_master current.modbus_message.info.source_id ≡ false

  abbrev pub Serves : RtuMaster Buf → Type 0
  Serves c =
      AllRequests modbus router is_master Past i c.message_queue.queue × IsOwed c.current_message

  abbrev pub Keeps : Outcome Buf → Type 0
  Keeps o = Serves o.0 × AllAllowed modbus router is_master Past i o.1

  module _ (laws : Modbus.Laws modbus) where
    request_frame-unit_id :
        (f : FrameType) (b : Buf)
        → modbus.get_unit_id (request_frame modbus f b) ≡ modbus.get_unit_id b
    request_frame-unit_id f b =
        laws.get_unit_id-update (modbus.convert_to f b) ∙ laws.get_unit_id-convert_to f b

    take_message-Keeps :
        (ms : List (ModbusMessage Buf)) (c : RtuMaster Buf)
        → AllRequests modbus router is_master Past i ms
        → IsOwed c.current_message
        → Keeps (take_message modbus ms c)
    unfolding take_message start_message_task
    take_message-Keeps [] c h o = ((tt, o), tt)
    take_message-Keeps (m ∷ ms) c ((b, e, r, s), h) o =
        rw e ((h, s), ((λ _. rw (request_frame-unit_id _ b) r), tt))

    queue_process-Keeps :
        (clock : ℕ → ℕ) (c : RtuMaster Buf) → Serves c → Keeps (queue_process modbus clock c)
    unfolding queue_process take_message start_message_task
    queue_process-Keeps clock c h = ground (
      arith,
      take_message-Keeps (drop_expired c.timeout clock c.message_queue.queue) c
          (drop_expired-AllRequests modbus router is_master Past i c.timeout clock
            c.message_queue.queue h.0)
          h.1,
    )

    -- A request for this master that arrives joins the others.
    pub receive-Keeps :
        (m : Message Buf) (clock : ℕ → ℕ) (c : RtuMaster Buf)
        → is_master i ≡ true
        → IsAddressed modbus router is_master Past (i, m)
        → Serves c
        → Keeps (receive modbus m clock c)
    unfolding receive process_message
    receive-Keeps (modbus_message m) clock c here a (q, o) =
        queue_process-Keeps clock (record c { message_queue = push m c.message_queue })
          (All-push (IsRequestFor modbus router is_master Past i) m c.message_queue q (a here), o)
    receive-Keeps (client_disconnect j) clock c here a h = (h, tt)

    pub on_write-Keeps :
        (ec : Completion) (c : RtuMaster Buf) → Serves c → Keeps (on_write modbus ec c)
    unfolding on_write
    on_write-Keeps (some ec) c h = ground (arith, h)
    on_write-Keeps none c h = (h, (tt, (tt, tt)))

    pub on_wait-Keeps :
        (ec : Completion) (c : RtuMaster Buf) → Serves c → Keeps (on_wait modbus ec c)
    unfolding on_wait
    on_wait-Keeps (some ec) c h = (h, tt)
    on_wait-Keeps none c h = (h, (tt, tt))

    make_response-Keeps :
        (b : Buf) (size : ℕ) (c : RtuMaster Buf)
        → Serves c
        → Keeps
            ((make_response modbus b size c).1, forward modbus (make_response modbus b size c).0)
    unfolding make_response
    make_response-Keeps b size c h = ground (arith, h)

    pub on_read-Keeps :
        (ec : Completion) (b : Buf) (size : ℕ) (clock : ℕ → ℕ) (c : RtuMaster Buf)
        → Serves c
        → Keeps (on_read modbus true ec b size clock c)
    unfolding on_read
    on_read-Keeps (some ec) b size clock c h = ground (arith, h)
    on_read-Keeps none b size clock c h =
        let (response, c') = make_response modbus b size c in
        let (serves, sends) = make_response-Keeps b size c h in
        let (serves', sends') = queue_process-Keeps clock c' serves in
        (
          serves',
          (
            tt,
            All-concat (IsAllowed modbus router is_master Past i) (forward modbus response) _ sends
                sends',
          ),
        )
