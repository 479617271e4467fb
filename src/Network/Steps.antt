-- ===== src/Network/Steps.antt =====
-- Every event keeps the gateway's masters to the routing table.
use modbus_gateway.Base.{
  ℕ, ◌≡◌, refl, ap, ◌∙◌, Bool, true, false, none, some, List, [], ◌∷◌, get_elem?, Bool-cases,
  Option-cases, inl, inr,
}
use modbus_gateway.Asio.{Peer, stays, left, leaves, Completion, is_aborted}
use modbus_gateway.Modbus
use modbus_gateway.Modbus.{Modbus}
use modbus_gateway.Exchange
use modbus_gateway.Exchange.{Exchange}
use modbus_gateway.Router.{Router}
use modbus_gateway.Message.{Message, modbus_message, client_disconnect}
use modbus_gateway.Transport.Traffic.{IsAddressed, IsInTable}
use modbus_gateway.TcpClient.Routed as Client
use modbus_gateway.RtuMaster.Routed as Line
use modbus_gateway.TcpConnection
use modbus_gateway.TcpConnection.Routed as Connection
use modbus_gateway.RtuSlave.Routed as Slave
use modbus_gateway.TcpServer
use modbus_gateway.TcpServer.{TcpServer}
use modbus_gateway.Network.{
  Actor, tcp_client, rtu_master, tcp_connection, rtu_slave, tcp_server, Ending, connects, accepts,
  sends, waits, receives, Event, ends, arrives, World, remove, put, end_operation, forget, receive,
  hand_over, advance, run,
}
use modbus_gateway.Network.Invariant.{IsRight, IsRouted, update-IsRight, act-IsRouted, put-IsRouted}
use modbus_gateway.Network.Mail.{remove-All, get_elem?-All}

module _ {Buf : Type 0} (modbus : Modbus Buf) (router : Router) (is_master : ℕ → Bool)
    (Past : Type 0) where
  -- What is received is in the table, or it is the request past the table.
  abbrev pub IsInside : Ending Buf → Type 0
  IsInside (receives ec b size clock) = IsInTable modbus router is_master Past b size
  IsInside _ = Unit

  abbrev pub AllInside : List (Event Buf) → Type 0
  AllInside [] = Unit
  AllInside (ends i ending ∷ es) = IsInside ending × AllInside es
  AllInside (arrives k clock ∷ es) = AllInside es

module _ {Buf Table : Type 0} (modbus : Modbus Buf) (laws : Modbus.Laws modbus)
    (exchange : Exchange Table) (exchange_laws : Exchange.Laws exchange) (router : Router)
    (is_master : ℕ → Bool) (Past : Type 0) where
  accept-IsRouted :
      (i : ℕ) (peer : Peer) (ec : Completion) (s : TcpServer) (w : World Buf Table)
      → IsRouted modbus exchange router is_master Past w
      → is_master i ≡ false
      → IsRouted modbus exchange router is_master Past
          (end_operation modbus exchange router i (accepts peer ec) (tcp_server s) w)
  unfolding TcpServer.on_accept TcpConnection.start TcpConnection.set_id
      TcpConnection.make_tcp_connection
  accept-IsRouted i peer (some ec) s w v o = elim (Bool-cases (is_aborted ec)) [
    | inl e ↦
        rw e (put-IsRouted modbus exchange router is_master Past i s w.table w v o v.registered)
    | inr e ↦
        rw e (put-IsRouted modbus exchange router is_master Past i s w.table w v o v.registered)
  ]
  accept-IsRouted i left none s w v o =
      put-IsRouted modbus exchange router is_master Past i s w.table w v o v.registered
  accept-IsRouted i leaves none s w v o =
      let t = (exchange.add w.table).1 in
      let s' : TcpServer = (TcpServer.on_accept exchange true leaves none s w.table).0 in
      put-IsRouted modbus exchange router is_master Past i s' t w v o
        (λ j h. exchange_laws.add_keeps w.table j (v.registered j h))
  accept-IsRouted i stays none s w v o =
      let (id, t) = exchange.add w.table in
      let s' : TcpServer = (TcpServer.on_accept exchange true stays none s w.table).0 in
      act-IsRouted modbus exchange router is_master Past id _
        (TcpConnection.start_receive_task modbus ∷ []) (put i (tcp_server s') t w)
        (put-IsRouted modbus exchange router is_master Past i s' t w v o
          (λ j h. exchange_laws.add_keeps w.table j (v.registered j h)))
        (refl, fresh) (tt, tt)
    where
      fresh : is_master (exchange.add w.table).0 ≡ false
      fresh = elim (Bool-cases (is_master (exchange.add w.table).0)) [
        | inl e ↦ cc (v.registered (exchange.add w.table).0 e, exchange_laws.add_fresh w.table)
        | inr e ↦ e
      ]

  end_operation-IsRouted :
      (i : ℕ) (ending : Ending Buf) (a : Actor Buf) (w : World Buf Table)
      → IsRouted modbus exchange router is_master Past w
      → IsRight modbus exchange router is_master Past i a
      → IsInside modbus router is_master Past ending
      → IsRouted modbus exchange router is_master Past
          (end_operation modbus exchange router i ending a w)
  end_operation-IsRouted i (connects peer ec clock) (tcp_client c) w v (m, h) inside =
      let (r, es) = Client.on_connect-Keeps modbus router is_master Past i laws peer ec clock c h in
      act-IsRouted modbus exchange router is_master Past i _ _ w v (m, r) es
  end_operation-IsRouted i (sends ec) (tcp_client c) w v (m, h) inside =
      let (r, es) = Client.on_send-Keeps modbus router is_master Past i laws ec c h in
      act-IsRouted modbus exchange router is_master Past i _ _ w v (m, r) es
  end_operation-IsRouted i (waits ec) (tcp_client c) w v (m, h) inside =
      let (r, es) = Client.on_wait-Keeps modbus router is_master Past i laws ec c h in
      act-IsRouted modbus exchange router is_master Past i _ _ w v (m, r) es
  end_operation-IsRouted i (receives ec b size clock) (tcp_client c) w v (m, h) inside =
      let (r, es) =
        Client.on_receive-Keeps modbus router is_master Past i laws ec b size clock c h in
      act-IsRouted modbus exchange router is_master Past i _ _ w v (m, r) es
  end_operation-IsRouted i (sends ec) (rtu_master c) w v (m, h) inside =
      let (r, es) = Line.on_write-Keeps modbus router is_master Past i laws ec c h in
      act-IsRouted modbus exchange router is_master Past i _ _ w v (m, r) es
  end_operation-IsRouted i (waits ec) (rtu_master c) w v (m, h) inside =
      let (r, es) = Line.on_wait-Keeps modbus router is_master Past i laws ec c h in
      act-IsRouted modbus exchange router is_master Past i _ _ w v (m, r) es
  end_operation-IsRouted i (receives ec b size clock) (rtu_master c) w v (m, h) inside =
      let (r, es) = Line.on_read-Keeps modbus router is_master Past i laws ec b size clock c h in
      act-IsRouted modbus exchange router is_master Past i _ _ w v (m, r) es
  end_operation-IsRouted i (sends ec) (tcp_connection c) w v h inside =
      let (r, es) = Connection.on_send-Keeps modbus router is_master Past i ec c h in
      act-IsRouted modbus exchange router is_master Past i _ _ w v r es
  end_operation-IsRouted i (receives ec b size clock) (tcp_connection c) w v h inside =
      let (r, es) =
        Connection.on_receive-Keeps modbus router is_master Past i ec b size (clock 0) c h inside in
      act-IsRouted modbus exchange router is_master Past i _ _ w v r es
  end_operation-IsRouted i (sends ec) (rtu_slave c) w v h inside =
      let (r, es) = Slave.on_write-Keeps modbus router is_master Past i ec c h in
      act-IsRouted modbus exchange router is_master Past i _ _ w v r es
  end_operation-IsRouted i (receives ec b size clock) (rtu_slave c) w v h inside =
      let (r, es) =
        Slave.on_read-Keeps modbus router is_master Past i ec b size (clock 0) c h inside in
      act-IsRouted modbus exchange router is_master Past i _ _ w v r es
  end_operation-IsRouted i (accepts peer ec) (tcp_server s) w v h inside =
      accept-IsRouted i peer ec s w v h
  end_operation-IsRouted i _ _ w v h inside = v

  deletion-registered :
      (j : ℕ) (t : Table)
      → is_master j ≡ false
      → ((i : ℕ) → is_master i ≡ true → exchange.registered t i ≡ true)
      → (i : ℕ) → is_master i ≡ true
      → exchange.registered (exchange.delete j t) i ≡ true
  deletion-registered j t o r i m =
      exchange_laws.delete_keeps t j i (λ e. cc (m, o, ap is_master e)) ∙ r i m

  forget-IsRouted :
      (m : Message Buf) (w : World Buf Table)
      → IsRouted modbus exchange router is_master Past w
      → IsRouted modbus exchange router is_master Past (forget modbus exchange router m w)
  forget-IsRouted (modbus_message m) w v = v
  forget-IsRouted (client_disconnect j) w v = record {
    registered = v.registered;
    actors =
        update-IsRight modbus exchange router is_master Past w.actors j none v.actors (λ a e. cc);
    mail = v.mail;
    log = v.log;
  }

  receive-IsRouted :
      (i : ℕ) (m : Message Buf) (clock : ℕ → ℕ) (a : Actor Buf) (w : World Buf Table)
      → IsRouted modbus exchange router is_master Past w
      → IsAddressed modbus router is_master Past (i, m)
      → IsRight modbus exchange router is_master Past i a
      → IsRouted modbus exchange router is_master Past
          (receive modbus exchange router i m clock a w)
  unfolding TcpServer.receive TcpServer.disconnect_client
  receive-IsRouted i m clock (tcp_client c) w v q (here, h) =
      let (r, es) = Client.receive-Keeps modbus router is_master Past i laws m clock c here q h in
      act-IsRouted modbus exchange router is_master Past i _ _ w v (here, r) es
  receive-IsRouted i m clock (rtu_master c) w v q (here, h) =
      let (r, es) = Line.receive-Keeps modbus router is_master Past i laws m clock c here q h in
      act-IsRouted modbus exchange router is_master Past i _ _ w v (here, r) es
  receive-IsRouted i m clock (tcp_connection c) w v q h =
      let (r, es) = Connection.receive-Keeps modbus router is_master Past i m c h in
      act-IsRouted modbus exchange router is_master Past i _ _ w v r es
  receive-IsRouted i m clock (rtu_slave c) w v q h =
      let (r, es) = Slave.receive-Keeps modbus router is_master Past i m c h in
      act-IsRouted modbus exchange router is_master Past i _ _ w v r es
  receive-IsRouted i (modbus_message m) clock (tcp_server s) w v q h =
      put-IsRouted modbus exchange router is_master Past i s w.table w v h v.registered
  receive-IsRouted i (client_disconnect j) clock (tcp_server s) w v q h =
      forget-IsRouted (client_disconnect j) _ (
        put-IsRouted modbus exchange router is_master Past i
          (TcpServer.disconnect_client exchange true j s w.table).0 (exchange.delete j w.table) w v
          h (deletion-registered j w.table q v.registered))

  hand_over-IsRouted :
      (item : ℕ × Message Buf) (clock : ℕ → ℕ) (w : World Buf Table)
      → IsRouted modbus exchange router is_master Past w
      → IsAddressed modbus router is_master Past item
      → IsRouted modbus exchange router is_master Past
          (hand_over modbus exchange router item clock w)
  hand_over-IsRouted (i, m) clock w v q = elim (Option-cases (w.actors i)) [
    | inl e ↦ rw (hand_over, e) v
    | inr (a, e) ↦ rw (hand_over, e) (receive-IsRouted i m clock a w v q (v.actors i a e))
  ]

  end-IsRouted :
      (i : ℕ) (ending : Ending Buf) (w : World Buf Table)
      → IsRouted modbus exchange router is_master Past w
      → IsInside modbus router is_master Past ending
      → IsRouted modbus exchange router is_master Past
          (advance modbus exchange router (ends i ending) w)
  end-IsRouted i ending w v inside = elim (Option-cases (w.actors i)) [
    | inl e ↦ rw (advance, e) v
    | inr (a, e) ↦ rw (advance, e) (end_operation-IsRouted i ending a w v (v.actors i a e) inside)
  ]

  arrive-IsRouted :
      (k : ℕ) (clock : ℕ → ℕ) (w : World Buf Table)
      → IsRouted modbus exchange router is_master Past w
      → IsRouted modbus exchange router is_master Past
          (advance modbus exchange router (arrives k clock) w)
  arrive-IsRouted k clock w v = elim (Option-cases (get_elem? w.mail k)) [
    | inl e ↦ rw (advance, e) v
    | inr (item, e) ↦
        rw (advance, e)
          (hand_over-IsRouted item clock (record w { mail = remove w.mail k })
            (record {
              registered = v.registered;
              actors = v.actors;
              mail = remove-All (IsAddressed modbus router is_master Past) w.mail k v.mail;
              log = v.log;
            })
            (get_elem?-All (IsAddressed modbus router is_master Past) w.mail k item v.mail e))
  ]

  pub run-IsRouted :
      (es : List (Event Buf)) (w : World Buf Table)
      → IsRouted modbus exchange router is_master Past w
      → AllInside modbus router is_master Past es
      → IsRouted modbus exchange router is_master Past (run modbus exchange router es w)
  unfolding run
  run-IsRouted [] w v inside = v
  run-IsRouted (ends i ending ∷ es) w v (here, inside) =
      run-IsRouted es _ (end-IsRouted i ending w v here) inside
  run-IsRouted (arrives k clock ∷ es) w v inside =
      run-IsRouted es _ (arrive-IsRouted k clock w v) inside
