-- ===== src/TcpClient/World/Connecting.antt =====
-- Connecting: the client does not remember that it has begun to connect.
use modbus_gateway.Base.{ℕ, zero, suc, ◌≡◌, ◌≢◌, refl, true, false, none, some, arith}
use modbus_gateway.Asio.{stays, left, leaves}
use modbus_gateway.Modbus.{Modbus}
use modbus_gateway.LimitQueue.{push}
use modbus_gateway.LimitQueue.Laws.{push-nonempty}
use modbus_gateway.Message.{ModbusMessage, modbus_message, client_disconnect}
use modbus_gateway.TcpClient.{
  TcpClient, idle, wait_connect, connected, make_tcp_client, queue_process, process_message,
  receive, on_connect, on_send, on_wait, on_receive, make_response,
}
use modbus_gateway.TcpClient.World.{
  World, Event, advance, start_world, Reach, here, next, message_arrives, connect_ends, send_ends,
  wait_ends, receive_ends,
}

module _ {Buf : Type 0} (modbus : Modbus Buf) where
  queue_process-state :
      (clock : ℕ → ℕ) (c : TcpClient Buf)
      → c.state ≢ wait_connect
      → (queue_process modbus clock c).0.state ≢ wait_connect
  unfolding queue_process
  queue_process-state clock c h = ground arith

  advance-state :
      (e : Event Buf) (w : World Buf)
      → w.client.state ≢ wait_connect
      → (advance modbus e w).client.state ≢ wait_connect
  unfolding receive process_message on_connect on_send on_wait on_receive
  advance-state (message_arrives (modbus_message m) clock) w h =
      queue_process-state clock (record w.client { message_queue = push m w.client.message_queue })
        h
  advance-state (message_arrives (client_disconnect i) clock) w h = h
  advance-state (connect_ends left none clock) w h = λ e. cc
  advance-state (connect_ends leaves none clock) w h = λ e. cc
  advance-state (connect_ends stays none clock) w h =
      queue_process-state clock (record w.client { state = connected }) (λ e. cc)
  advance-state (connect_ends peer (some ec) clock) w h = ground arith
  advance-state (send_ends ec) w h = ground arith
  advance-state (wait_ends ec) w h = ground arith
  advance-state (receive_ends false ec b size clock) w h = h
  advance-state (receive_ends true (some ec) b size clock) w h = ground arith
  advance-state (receive_ends true none b size clock) w h =
      queue_process-state clock
        (record (make_response modbus b size w.client).1 { state = connected }) (λ e. cc)

  -- Whatever arrives and however the operations of asio end, a TCP client that was just made never
  -- enters the state WaitConnect.
  pub Reach-ne-wait_connect :
      (id timeout : ℕ) {w : World Buf}
      → Reach modbus (λ e. Unit {0}) (start_world id timeout) w
      → w.client.state ≢ wait_connect
  unfolding make_tcp_client
  Reach-ne-wait_connect id timeout here = λ e. cc
  Reach-ne-wait_connect id timeout (next {v = v} e r en _ eq) =
      rw eq (advance-state e v (Reach-ne-wait_connect id timeout r))

  abbrev Connects : ℕ → World Buf → Type 0
  Connects n w = (w.client.state ≡ idle) × (w.pending.connects ≡ n)

  message-Connects :
      (m : ModbusMessage Buf) (clock : ℕ → ℕ) (n : ℕ) (w : World Buf)
      → Connects n w
      → Connects (suc n) (advance modbus (message_arrives (modbus_message m) clock) w)
  unfolding receive process_message queue_process
  message-Connects m clock n w h = ground (arith, push-nonempty m w.client.message_queue)

  -- For every number there is a course of events after which a TCP client that was just made is
  -- still idle and has that many attempts to connect outstanding on its one socket.
  pub connects_unbounded :
      (id timeout n : ℕ) (m : ModbusMessage Buf)
      → (w : World Buf) × Reach modbus (λ e. Unit {0}) (start_world id timeout) w
        × (w.client.state ≡ idle)
        × (w.pending.connects ≡ n)
  unfolding make_tcp_client
  connects_unbounded id timeout zero m = (start_world id timeout, here, refl, refl)
  connects_unbounded id timeout (suc n) m =
      let (w, r, i, k) = connects_unbounded id timeout n m in
      let e : Event Buf = message_arrives (modbus_message m) (λ _. 0) in
      let (i', k') = message-Connects m (λ _. 0) n w (i, k) in
      (advance modbus e w, next e r tt tt refl, i', k')
