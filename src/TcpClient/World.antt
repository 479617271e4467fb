-- ===== src/TcpClient/World.antt =====
-- The client among its outstanding operations: every order in which messages arrive and operations
-- of asio complete.
pub mod Connecting
pub mod InFlight
pub mod Settling
pub mod Stuck
use modbus_gateway.Base.{ℕ, ◌-◌, ◌<◌, ◌≡◌, Bool}
use modbus_gateway.Asio.{Peer, Completion}
use modbus_gateway.Modbus.{Modbus}
use modbus_gateway.Message.{Message}
use modbus_gateway.Transport.{Pending, idle_pending, issue}
use modbus_gateway.TcpClient.{
  TcpClient, Outcome, make_tcp_client, receive, on_connect, on_send, on_wait, on_receive,
}

-- What can happen next, with what the environment chooses: the clock, the outcome of an operation,
-- the received bytes, and whether the exchange still exists.
pub data Event (Buf : Type 0) : Type 0 where
  message_arrives : Message Buf → (ℕ → ℕ) → Event Buf
  connect_ends : Peer → Completion → (ℕ → ℕ) → Event Buf
  send_ends wait_ends : Completion → Event Buf
  receive_ends : Bool → Completion → Buf → ℕ → (ℕ → ℕ) → Event Buf

pub record World (Buf : Type 0) : Type 0 where
  pub client : TcpClient Buf
  pub pending : Pending

-- A handler is called only for an operation that is outstanding.
abbrev pub Enabled : {Buf : Type 0} → Event Buf → Pending → Type 0
Enabled (message_arrives m clock) p = Unit
Enabled (connect_ends peer ec clock) p = 0 < p.connects
Enabled (send_ends ec) p = 0 < p.sends
Enabled (wait_ends ec) p = 0 < p.waits
Enabled (receive_ends alive ec b size clock) p = 0 < p.receives

abbrev pub finish : {Buf : Type 0} → Event Buf → Pending → Pending
finish (message_arrives m clock) p = p
finish (connect_ends peer ec clock) p = record p { connects = p.connects - 1 }
finish (send_ends ec) p = record p { sends = p.sends - 1 }
finish (wait_ends ec) p = record p { waits = p.waits - 1 }
finish (receive_ends alive ec b size clock) p = record p { receives = p.receives - 1 }

abbrev pub after : {Buf : Type 0} → Outcome Buf → Pending → World Buf
after o p = record { client = o.0; pending = issue o.1 p }

abbrev pub start_world : {Buf : Type 0} → ℕ → ℕ → World Buf
start_world id timeout = record { client = make_tcp_client id timeout; pending = idle_pending }

module _ {Buf : Type 0} (modbus : Modbus Buf) where
  abbrev pub handle : Event Buf → TcpClient Buf → Outcome Buf
  handle (message_arrives m clock) c = receive modbus m clock c
  handle (connect_ends peer ec clock) c = on_connect modbus peer ec clock c
  handle (send_ends ec) c = on_send modbus ec c
  handle (wait_ends ec) c = on_wait modbus ec c
  handle (receive_ends alive ec b size clock) c = on_receive modbus alive ec b size clock c

  abbrev pub advance : Event Buf → World Buf → World Buf
  advance e w = after (handle e w.client) (finish e w.pending)

  -- The worlds that follow from `w` by enabled events of which `P` holds.
  pub data Reach (P : Event Buf → Type 0) (w : World Buf) : World Buf → Type 0 where
    here : Reach P w w
    next :
        {v u : World Buf} (e : Event Buf)
        → Reach P w v
        → Enabled e v.pending
        → P e
        → u ≡ advance e v
        → Reach P w u
