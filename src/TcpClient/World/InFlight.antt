-- ===== src/TcpClient/World/InFlight.antt =====
-- At most one request is in flight.
use modbus_gateway.Base.{
  ℕ, ◌+◌, ◌-◌, ◌≤◌, ◌<◌, ◌≡◌, refl, Bool, true, false, Option, none, some, List, ◌++◌, arith,
}
use modbus_gateway.Asio.{stays, left, leaves, Completion}
use modbus_gateway.Modbus.{Modbus}
use modbus_gateway.Transport.{Effect, Pending, issue}
use modbus_gateway.LimitQueue.{push}
use modbus_gateway.Message.{ModbusMessage, Message, modbus_message, client_disconnect}
use modbus_gateway.TcpClient.{
  TcpClient, forward, process_message, connected, make_tcp_client, queue_process, receive,
  on_connect, on_send, on_wait, on_receive, make_response,
}
use modbus_gateway.TcpClient.World.{
  World, Event, Enabled, finish, after, advance, start_world, Reach, here, next, message_arrives,
  connect_ends, send_ends, wait_ends, receive_ends,
}

abbrev pub is_some {ℓ} : {A : Type ℓ} → Option A → Bool
is_some none = false
is_some (some a) = true

-- One operation on the wire at most, and only for the current message.
pub record InFlight {Buf : Type 0} (w : World Buf) : Type 0 where
  pub single : w.pending.sends + w.pending.receives ≤ 1
  pub current : 0 < w.pending.sends + w.pending.receives → is_some w.client.current_message ≡ true

module _ {Buf : Type 0} (modbus : Modbus Buf) where
  queue_process-InFlight :
      (clock : ℕ → ℕ) (c : TcpClient Buf) (p : Pending)
      → InFlight (record { client = c; pending = p })
      → InFlight (after (queue_process modbus clock c) p)
  unfolding queue_process
  queue_process-InFlight clock c p v = ground arith

  -- A message leaves the counts alone until the queue is processed.
  receive-InFlight :
      (m : Message Buf) (clock : ℕ → ℕ) (c : TcpClient Buf) (p : Pending)
      → InFlight (record { client = c; pending = p })
      → InFlight (after (receive modbus m clock c) p)
  unfolding receive process_message
  receive-InFlight (modbus_message m) clock c p v =
      queue_process-InFlight clock (record c { message_queue = push m c.message_queue }) p
        (record { single = v.single; current = v.current })
  receive-InFlight (client_disconnect i) clock c p v = v

  pub issue-forward :
      (r : Option (ModbusMessage Buf)) (es : List (Effect Buf)) (p : Pending)
      → issue (forward modbus r ++ es) p ≡ issue es p
  issue-forward none es p = refl
  issue-forward (some m) es p = refl

  receive_ends-InFlight :
      (alive : Bool) (ec : Completion) (b : Buf) (size : ℕ) (clock : ℕ → ℕ) (c : TcpClient Buf)
      (p : Pending)
      → p.sends + p.receives ≡ 0
      → InFlight (after (on_receive modbus alive ec b size clock c) p)
  unfolding on_receive
  receive_ends-InFlight false ec b size clock c p h = ground arith
  receive_ends-InFlight true (some ec) b size clock c p h = ground arith
  receive_ends-InFlight true none b size clock c p h =
      rw (issue-forward (make_response modbus b size c).0) (
        queue_process-InFlight clock
          (record (make_response modbus b size c).1 { state = connected }) p
          (record { single = omega arith; current = λ q. absurd (omega arith) }))

  advance-InFlight :
      (e : Event Buf) (w : World Buf)
      → InFlight w
      → Enabled e w.pending
      → InFlight (advance modbus e w)
  unfolding on_connect on_send on_wait
  advance-InFlight (message_arrives m clock) w v h = receive-InFlight m clock w.client w.pending v
  advance-InFlight (connect_ends left none clock) w v h = ground arith
  advance-InFlight (connect_ends leaves none clock) w v h = ground arith
  advance-InFlight (connect_ends stays none clock) w v h =
      queue_process-InFlight clock (record w.client { state = connected })
        (record w.pending { connects = w.pending.connects - 1 })
        (record { single = v.single; current = v.current })
  advance-InFlight (connect_ends peer (some ec) clock) w v h = ground arith
  advance-InFlight (send_ends ec) w v h = ground arith
  advance-InFlight (wait_ends ec) w v h = ground arith
  advance-InFlight (receive_ends alive ec b size clock) w v h =
      receive_ends-InFlight alive ec b size clock w.client
        (finish (receive_ends alive ec b size clock) w.pending) (omega (arith, v.single))

  -- Whatever arrives and however the operations of asio end, a TCP client that was just made never
  -- has more than one send or receive outstanding, and has one only while it has a current message.
  pub Reach-InFlight :
      (id timeout : ℕ) {w : World Buf}
      → Reach modbus (λ e. Unit {0}) (start_world id timeout) w
      → InFlight w
  unfolding make_tcp_client
  Reach-InFlight id timeout here = ground arith
  Reach-InFlight id timeout (next {v = v} e r en _ eq) =
      rw eq (advance-InFlight e v (Reach-InFlight id timeout r) en)
