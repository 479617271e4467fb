-- ===== src/TcpClient/World/Settling.antt =====
-- The client comes to rest: what is queued and outstanding bounds the handlers that can still run.
use modbus_gateway.Base.{
  ℕ, suc, ◌+◌, ◌-◌, ◌*◌, ◌≤◌, ◌≡◌, refl, ap, Bool, true, false, none, some, List, [], ◌∷◌, length,
  arith,
}
use modbus_gateway.Asio.{stays, left, leaves, Completion}
use modbus_gateway.Modbus.{Modbus}
use modbus_gateway.LimitQueue.{push}
use modbus_gateway.LimitQueue.Laws.{length-push}
use modbus_gateway.Transport.{Pending, drop_expired}
use modbus_gateway.Transport.Expiry.{length-drop_expired}
use modbus_gateway.Message.{ModbusMessage, Message, modbus_message, client_disconnect}
use modbus_gateway.TcpClient.{
  TcpClient, connected, queue_process, take_message, process_message, receive, on_connect, on_send,
  on_wait, on_receive, make_response,
}
use modbus_gateway.TcpClient.World.{
  World, Event, Enabled, finish, after, advance, Reach, here, next, message_arrives, connect_ends,
  send_ends, wait_ends, receive_ends,
}
use modbus_gateway.TcpClient.World.InFlight.{issue-forward}

module _ {Buf : Type 0} where
  -- What each outstanding operation and each queued message can still cause: a queued message is
  -- sent, a send starts a receive and a timer.
  abbrev pub load : TcpClient Buf → Pending → ℕ
  load c p = p.connects + 3 * p.sends + p.receives + p.waits + 4 * length c.message_queue.queue

  abbrev pub workload : World Buf → ℕ
  workload w = load w.client w.pending

  -- How often the handler of a message is among the events; each may also start a connection.
  abbrev pub arrival : Event Buf → ℕ
  arrival (message_arrives m clock) = 1
  arrival _ = 0

module _ {Buf : Type 0} (modbus : Modbus Buf) where
  -- The lengths of a course of events, and of the part of it that are arrivals.
  abbrev pub steps : {P : Event Buf → Type 0} {w u : World Buf} → Reach modbus P w u → ℕ
  steps here = 0
  steps (next e r en p q) = suc (steps r)

  abbrev pub arrivals : {P : Event Buf → Type 0} {w u : World Buf} → Reach modbus P w u → ℕ
  arrivals here = 0
  arrivals (next e r en p q) = arrival e + arrivals r

  take_message-load :
      (ms : List (ModbusMessage Buf)) (c : TcpClient Buf) (p : Pending)
      → length ms ≤ length c.message_queue.queue
      → workload (after (take_message modbus ms c) p) ≤ load c p
  unfolding take_message
  take_message-load [] c p h = ground arith
  take_message-load (m ∷ ms) c p h = ground arith

  -- A client that is not idle starts no connection.
  queue_process-load :
      (clock : ℕ → ℕ) (c : TcpClient Buf) (p : Pending)
      → c.state ≡ connected
      → workload (after (queue_process modbus clock c) p) ≤ load c p
  unfolding queue_process take_message
  queue_process-load clock c p s = ground (
    arith,
    take_message-load (drop_expired c.timeout clock c.message_queue.queue) c p
        (length-drop_expired c.timeout clock c.message_queue.queue),
  )

  queue_process-load_idle :
      (clock : ℕ → ℕ) (c : TcpClient Buf) (p : Pending)
      → workload (after (queue_process modbus clock c) p) ≤ suc (load c p)
  unfolding queue_process take_message
  queue_process-load_idle clock c p = ground (
    arith,
    take_message-load (drop_expired c.timeout clock c.message_queue.queue) c p
        (length-drop_expired c.timeout clock c.message_queue.queue),
  )

  make_response-queue :
      (b : Buf) (size : ℕ) (c : TcpClient Buf)
      → (make_response modbus b size c).1.message_queue ≡ c.message_queue
  unfolding make_response
  make_response-queue b size c = ground arith

  receive-load :
      (m : Message Buf) (clock : ℕ → ℕ) (c : TcpClient Buf) (p : Pending)
      → workload (after (receive modbus m clock c) p) ≤ 5 + load c p
  unfolding receive process_message
  receive-load (modbus_message m) clock c p = omega (
    arith,
    queue_process-load_idle clock (record c { message_queue = push m c.message_queue }) p,
    length-push m c.message_queue,
  )
  receive-load (client_disconnect i) clock c p = omega arith

  receive_ends-load :
      (alive : Bool) (ec : Completion) (b : Buf) (size : ℕ) (clock : ℕ → ℕ) (c : TcpClient Buf)
      (p : Pending)
      → workload (after (on_receive modbus alive ec b size clock c) p) ≤ load c p
  unfolding on_receive
  receive_ends-load false ec b size clock c p = omega arith
  receive_ends-load true (some ec) b size clock c p = ground arith
  receive_ends-load true none b size clock c p =
      let (response, c') = make_response modbus b size c in
      rw (issue-forward modbus response) (
        omega (
          arith,
          queue_process-load clock (record c' { state = connected }) p refl,
          ap (λ q. length q.queue) (make_response-queue b size c),
        ))

  -- Every event takes at least one unit off the load; an arrival adds six at most.
  advance-load :
      (e : Event Buf) (w : World Buf)
      → Enabled e w.pending
      → suc (workload (advance modbus e w)) ≤ 6 * arrival e + workload w
  unfolding on_connect on_send on_wait
  advance-load (message_arrives m clock) w h =
      omega (arith, receive-load m clock w.client w.pending)
  advance-load (connect_ends left none clock) w h = omega arith
  advance-load (connect_ends leaves none clock) w h = omega arith
  advance-load (connect_ends stays none clock) w h = omega (
    arith,
    queue_process-load clock (record w.client { state = connected })
        (record w.pending { connects = w.pending.connects - 1 }) refl,
  )
  advance-load (connect_ends peer (some ec) clock) w h = omega arith
  advance-load (send_ends ec) w h = ground arith
  advance-load (wait_ends ec) w h = ground arith
  advance-load (receive_ends alive ec b size clock) w h = omega (
    arith,
    receive_ends-load alive ec b size clock w.client
        (finish (receive_ends alive ec b size clock) w.pending),
  )

  -- From any world of a TCP client: however long a course of events is, whatever arrives in it and
  -- however the operations of asio end, its length is at most the load of the world at its start
  -- (what is queued and outstanding there) plus six for each message that arrives, less the load
  -- that is left. So without arrivals every course of events ends.
  pub Reach-settles :
      {P : Event Buf → Type 0} {w u : World Buf} (r : Reach modbus P w u)
      → steps r + workload u ≤ 6 * arrivals r + workload w
  Reach-settles here = omega arith
  Reach-settles (next {v = v} e r en p eq) =
      omega (arith, Reach-settles r, advance-load e v en, ap workload eq)
