-- ===== src/TcpConnection/Routed.antt =====
-- A connection sends its requests where the routing table says.
use modbus_gateway.Base.{
  ℕ, ◌≡◌, refl, Bool, true, false, Option, none, some, Option-cases, Bool-cases, inl, inr, arith,
}
use modbus_gateway.Asio.{Completion}
use modbus_gateway.Modbus.{Modbus}
use modbus_gateway.Router.{Router, route}
use modbus_gateway.Message.{ModbusMessage, Message, modbus_message, client_disconnect}
use modbus_gateway.Transport.Traffic.{AllAllowed, IsInTable}
use modbus_gateway.TcpConnection.{
  TcpConnection, Outcome, start, make_request, route_message, accept_request, on_receive, receive,
  on_send, make_response,
}

module _ {Buf : Type 0} (modbus : Modbus Buf) (router : Router) (is_master : ℕ → Bool)
    (Past : Type 0) (i : ℕ) where
  -- It has its own id, and is not a master.
  abbrev pub IsOutside : TcpConnection → Type 0
  IsOutside c = (c.id ≡ i) × (is_master i ≡ false)

  abbrev pub Keeps : Outcome modbus → Type 0
  Keeps o = IsOutside o.0 × AllAllowed modbus router is_master Past i o.1

  abbrev IsIn : Buf → ℕ → Type 0
  IsIn = IsInTable modbus router is_master Past

  abbrev IsMade : Option (ModbusMessage Buf) → Type 0
  IsMade none = Unit
  IsMade (some m) =
      (b : Buf) × (m.buffer ≡ some b)
      × (is_master m.info.source_id ≡ false)
      × (route router (modbus.get_unit_id b) ≡ none → Past)

  pub start-Keeps : (c : TcpConnection) → IsOutside c → Keeps (start modbus c)
  unfolding start
  start-Keeps c h = (h, (tt, tt))

  make_request-IsMade :
      (now : ℕ) (b : Buf) (size : ℕ) (c : TcpConnection)
      → IsOutside c
      → IsIn b size
      → IsMade (make_request modbus now b size c.id)
  unfolding make_request
  make_request-IsMade now b size c h in_table = elim (Bool-cases (modbus.set_adu_size size b).0) [
    | inr e ↦ rw e tt
    | inl e ↦ elim (Bool-cases (modbus.tcp_check_no_error (modbus.set_adu_size size b).1)) [
      | inr k ↦ rw (e, k) tt
      | inl k ↦ rw (e, k) ((modbus.set_adu_size size b).1, refl, rw h.0 h.1, in_table)
    ]
  ]

  route_message-Allowed :
      (m : ModbusMessage Buf) (b : Buf)
      → m.buffer ≡ some b
      → is_master m.info.source_id ≡ false
      → is_master i ≡ false
      → (route router (modbus.get_unit_id b) ≡ none → Past)
      → AllAllowed modbus router is_master Past i (route_message modbus router b (modbus_message m))
  route_message-Allowed m b e s o past = elim (Option-cases (route router (modbus.get_unit_id b))) [
    | inl r ↦ rw (route_message, r) ((o, past r), tt)
    | inr (actor, r) ↦ rw (route_message, r) ((λ _. (b, e, r, s)), (tt, tt))
  ]

  accept_request-Keeps :
      (request : Option (ModbusMessage Buf)) (c : TcpConnection)
      → IsMade request
      → IsOutside c
      → Keeps (accept_request modbus router request c)
  unfolding accept_request
  accept_request-Keeps none c made h = (h, (tt, tt))
  accept_request-Keeps (some m) c (b, e, s, past) h =
      rw e (h, route_message-Allowed m b e s h.1 past)

  pub on_receive-Keeps :
      (ec : Completion) (b : Buf) (size now : ℕ) (c : TcpConnection)
      → IsOutside c
      → IsIn b size
      → Keeps (on_receive modbus router true ec b size now c)
  unfolding on_receive
  on_receive-Keeps (some ec) b size now c h in_table = ground (arith, h)
  on_receive-Keeps none b size now c h in_table =
      accept_request-Keeps (make_request modbus now b size c.id) c
        (make_request-IsMade now b size c h in_table) h

  pub receive-Keeps :
      (m : Message Buf) (c : TcpConnection) → IsOutside c → Keeps (receive modbus m c)
  unfolding receive make_response
  receive-Keeps (modbus_message m) c h = ground (arith, h)
  receive-Keeps (client_disconnect j) c h = (h, tt)

  pub on_send-Keeps :
      (ec : Completion) (c : TcpConnection) → IsOutside c → Keeps (on_send modbus ec c)
  unfolding on_send
  on_send-Keeps ec c h = (h, tt)
