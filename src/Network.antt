-- ===== src/Network.antt =====
-- All actors of the gateway together: src/transport on top of the exchange, in any order of events.
-- A message that is sent to the exchange waits in the mail until it is handed to the actor that then
-- has its id; nothing is assumed of the order in which that happens.
pub mod Launch
pub mod Invariant
pub mod Mail
pub mod Steps
pub mod Started
pub mod Safety
use modbus_gateway.Base.{
  ℕ, zero, suc, Bool, true, false, Option, none, some, List, [], ◌∷◌, ◌++◌, map, ◌==◌, get_elem?,
  if◌then◌else◌,
}
use modbus_gateway.Asio.{Peer, Completion}
use modbus_gateway.Modbus.{Modbus}
use modbus_gateway.Exchange.{Exchange}
use modbus_gateway.Router.{Router}
use modbus_gateway.Message.{Message, modbus_message, client_disconnect}
use modbus_gateway.Transport.{Effect, delivered}
use modbus_gateway.TcpClient
use modbus_gateway.TcpClient.{TcpClient}
use modbus_gateway.RtuMaster
use modbus_gateway.RtuMaster.{RtuMaster}
use modbus_gateway.TcpConnection
use modbus_gateway.TcpConnection.{TcpConnection}
use modbus_gateway.RtuSlave
use modbus_gateway.RtuSlave.{RtuSlave}
use modbus_gateway.TcpServer
use modbus_gateway.TcpServer.{TcpServer, ServerEffect, start_client}

-- The classes that implement exchange::IActor.
pub data Actor (Buf : Type 0) : Type 0 where
  tcp_client : TcpClient Buf → Actor Buf
  rtu_master : RtuMaster Buf → Actor Buf
  tcp_connection : TcpConnection → Actor Buf
  rtu_slave : RtuSlave → Actor Buf
  tcp_server : TcpServer → Actor Buf

-- How an operation of asio ends, with what the environment chooses.
pub data Ending (Buf : Type 0) : Type 0 where
  connects : Peer → Completion → (ℕ → ℕ) → Ending Buf
  accepts : Peer → Completion → Ending Buf
  sends waits : Completion → Ending Buf
  receives : Completion → Buf → ℕ → (ℕ → ℕ) → Ending Buf

pub data Event (Buf : Type 0) : Type 0 where
  -- an operation of the actor with this id ends
  ends : ℕ → Ending Buf → Event Buf
  -- a message of the mail, counted from the oldest, reaches its actor
  arrives : ℕ → (ℕ → ℕ) → Event Buf

pub record World (Buf Table : Type 0) : Type 0 where
  pub table : Table
  pub actors : ℕ → Option (Actor Buf)
  pub mail : List (ℕ × Message Buf)
  -- every effect so far, with the actor that caused it
  pub log : List (ℕ × Effect Buf)

abbrev pub update {ℓ} : {A : Type ℓ} → (ℕ → A) → ℕ → A → ℕ → A
update f i a j = if i == j then a else f j

-- The list without the element at the index.
abbrev pub remove {ℓ} : {A : Type ℓ} → List A → ℕ → List A
remove [] i = []
remove (x ∷ xs) zero = xs
remove (x ∷ xs) (suc i) = x ∷ remove xs i

abbrev pub note {ℓ} : {A : Type ℓ} → ℕ → List A → List (ℕ × A)
note i = map (λ a. (i, a))

module _ {Buf Table : Type 0} where
  -- An actor after a handler: its messages go to the mail.
  abbrev pub act : ℕ → Actor Buf → List (Effect Buf) → World Buf Table → World Buf Table
  act i a es w = record {
    table = w.table;
    actors = update w.actors i (some a);
    mail = w.mail ++ delivered es;
    log = w.log ++ note i es;
  }

  abbrev pub put : ℕ → Actor Buf → Table → World Buf Table → World Buf Table
  put i a t w = record w { table = t; actors = update w.actors i (some a) }

module _ {Buf Table : Type 0} (modbus : Modbus Buf) (exchange : Exchange Table)
    (router : Router) where
  -- A connection that the server accepted: exchange->Add sets its id, then it is started.
  abbrev pub welcome : ℕ → ServerEffect → World Buf Table → World Buf Table
  welcome server_id (start_client i) w =
      let made = TcpConnection.make_tcp_connection exchange.default_id server_id in
      let (c, es) = TcpConnection.start modbus (TcpConnection.set_id i made) in
      act i (tcp_connection c) es w
  welcome server_id _ w = w

  abbrev pub welcome_all : ℕ → List ServerEffect → World Buf Table → World Buf Table
  welcome_all server_id [] w = w
  welcome_all server_id (e ∷ es) w = welcome_all server_id es (welcome server_id e w)

  -- The handler of an operation, by the class of the actor; an actor starts only operations that it
  -- has a handler for.
  abbrev pub end_operation : ℕ → Ending Buf → Actor Buf → World Buf Table → World Buf Table
  end_operation i (connects peer ec clock) (tcp_client c) w =
      let (c', es) = TcpClient.on_connect modbus peer ec clock c in act i (tcp_client c') es w
  end_operation i (sends ec) (tcp_client c) w =
      let (c', es) = TcpClient.on_send modbus ec c in act i (tcp_client c') es w
  end_operation i (waits ec) (tcp_client c) w =
      let (c', es) = TcpClient.on_wait modbus ec c in act i (tcp_client c') es w
  end_operation i (receives ec b size clock) (tcp_client c) w =
      let (c', es) = TcpClient.on_receive modbus true ec b size clock c in
      act i (tcp_client c') es w
  end_operation i (sends ec) (rtu_master c) w =
      let (c', es) = RtuMaster.on_write modbus ec c in act i (rtu_master c') es w
  end_operation i (waits ec) (rtu_master c) w =
      let (c', es) = RtuMaster.on_wait modbus ec c in act i (rtu_master c') es w
  end_operation i (receives ec b size clock) (rtu_master c) w =
      let (c', es) = RtuMaster.on_read modbus true ec b size clock c in act i (rtu_master c') es w
  end_operation i (sends ec) (tcp_connection c) w =
      let (c', es) = TcpConnection.on_send modbus ec c in act i (tcp_connection c') es w
  end_operation i (receives ec b size clock) (tcp_connection c) w =
      let (c', es) = TcpConnection.on_receive modbus router true ec b size (clock 0) c in
      act i (tcp_connection c') es w
  end_operation i (sends ec) (rtu_slave c) w =
      let (c', es) = RtuSlave.on_write modbus ec c in act i (rtu_slave c') es w
  end_operation i (receives ec b size clock) (rtu_slave c) w =
      let (c', es) = RtuSlave.on_read modbus router true ec b size (clock 0) c in
      act i (rtu_slave c') es w
  end_operation i (accepts peer ec) (tcp_server s) w =
      let (s', t, es) = TcpServer.on_accept exchange true peer ec s w.table in
      welcome_all s.id es (put i (tcp_server s') t w)
  end_operation i _ _ w = w

  -- exchange->Delete of the client that the message names.
  abbrev pub forget : Message Buf → World Buf Table → World Buf Table
  forget (modbus_message m) w = w
  forget (client_disconnect j) w = record w { actors = update w.actors j none }

  -- Receive, by the class of the actor.
  abbrev pub receive : ℕ → Message Buf → (ℕ → ℕ) → Actor Buf → World Buf Table → World Buf Table
  receive i m clock (tcp_client c) w =
      let (c', es) = TcpClient.receive modbus m clock c in act i (tcp_client c') es w
  receive i m clock (rtu_master c) w =
      let (c', es) = RtuMaster.receive modbus m clock c in act i (rtu_master c') es w
  receive i m clock (tcp_connection c) w =
      let (c', es) = TcpConnection.receive modbus m c in act i (tcp_connection c') es w
  receive i m clock (rtu_slave c) w =
      let (c', es) = RtuSlave.receive modbus m c in act i (rtu_slave c') es w
  receive i m clock (tcp_server s) w =
      let (s', t, es) = TcpServer.receive exchange true m s w.table in
      forget m (put i (tcp_server s') t w)

  -- A message to an id that no actor has is lost.
  abbrev pub hand_over : ℕ × Message Buf → (ℕ → ℕ) → World Buf Table → World Buf Table
  hand_over (i, m) clock w = elim (w.actors i) [ none ↦ w | some a ↦ receive i m clock a w ]

  abbrev pub advance : Event Buf → World Buf Table → World Buf Table
  advance (ends i ending) w = elim (w.actors i) [ none ↦ w | some a ↦ end_operation i ending a w ]
  advance (arrives k clock) w = elim (get_elem? w.mail k) [
    | none ↦ w
    | some item ↦ hand_over item clock (record w { mail = remove w.mail k })
  ]

  -- Any course of events.
  unfoldable pub run : List (Event Buf) → World Buf Table → World Buf Table
  run [] w = w
  run (e ∷ es) w = run es (advance e w)
