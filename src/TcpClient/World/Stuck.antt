-- ===== src/TcpClient/World/Stuck.antt =====
-- Two ways in which the client stops serving its queue: for ever after a response of an invalid
-- size, and until the next message arrives after a timeout.
use modbus_gateway.Base.{ℕ, ◌+◌, ◌-◌, ◌<◌, ◌≡◌, refl, true, false, none, some, arith}
use modbus_gateway.Asio.{stays, left, leaves, operation_aborted}
use modbus_gateway.Modbus.{Modbus}
use modbus_gateway.Transport.{Pending}
use modbus_gateway.LimitQueue.{LimitQueue, push}
use modbus_gateway.Message.{ModbusMessage, modbus_message, client_disconnect}
use modbus_gateway.TcpClient.{
  TcpClient, CurrentMessage, connected, queue_process, process_message, receive, on_connect,
  on_wait, on_receive, make_response,
}
use modbus_gateway.TcpClient.World.{
  World, Event, Enabled, after, advance, Reach, here, next, message_arrives, connect_ends,
  send_ends, wait_ends, receive_ends,
}
use modbus_gateway.TcpClient.World.InFlight.{InFlight}

module _ {Buf : Type 0} where
  -- A request counts as current, and nothing that would end it is outstanding.
  pub record IsWedged (current : CurrentMessage Buf) (w : World Buf) : Type 0 where
    pub kept : w.client.current_message ≡ some current
    pub silent : w.pending.sends + w.pending.receives ≡ 0

  -- Messages are queued behind an open connection, and nothing is being connected, sent or received.
  pub record IsStalled (queue : LimitQueue (ModbusMessage Buf)) (w : World Buf) : Type 0 where
    pub kept : w.client.message_queue ≡ queue
    pub open_connection : w.client.state ≡ connected
    pub free : w.client.current_message ≡ none
    pub silent : w.pending.connects + w.pending.sends + w.pending.receives ≡ 0

  -- Events other than the arrival of a message.
  abbrev pub NotAnArrival : Event Buf → Type 0
  NotAnArrival (message_arrives m clock) = ⊥
  NotAnArrival _ = Unit

module _ {Buf : Type 0} (modbus : Modbus Buf) where
  queue_process-IsWedged :
      (clock : ℕ → ℕ) (c : TcpClient Buf) (p : Pending) (current : CurrentMessage Buf)
      → IsWedged current (record { client = c; pending = p })
      → IsWedged current (after (queue_process modbus clock c) p)
  unfolding queue_process
  queue_process-IsWedged clock c p current v = ground arith

  advance-IsWedged :
      (e : Event Buf) (w : World Buf) (current : CurrentMessage Buf)
      → IsWedged current w
      → Enabled e w.pending
      → IsWedged current (advance modbus e w)
  unfolding receive process_message on_connect on_wait
  advance-IsWedged (message_arrives (modbus_message m) clock) w current v h =
      queue_process-IsWedged clock
        (record w.client { message_queue = push m w.client.message_queue }) w.pending current
        (record { kept = v.kept; silent = v.silent })
  advance-IsWedged (message_arrives (client_disconnect i) clock) w current v h = v
  advance-IsWedged (connect_ends left none clock) w current v h = ground arith
  advance-IsWedged (connect_ends leaves none clock) w current v h = ground arith
  advance-IsWedged (connect_ends stays none clock) w current v h =
      queue_process-IsWedged clock (record w.client { state = connected })
        (record w.pending { connects = w.pending.connects - 1 }) current
        (record { kept = v.kept; silent = v.silent })
  advance-IsWedged (connect_ends peer (some ec) clock) w current v h = ground arith
  advance-IsWedged (send_ends ec) w current v h = absurd (omega (arith, v.silent))
  advance-IsWedged (wait_ends ec) w current v h = ground arith
  advance-IsWedged (receive_ends alive ec b size clock) w current v h =
      absurd (omega (arith, v.silent))

  -- Such a client keeps the request for ever and never starts another send or receive, whatever
  -- messages arrive, connections are made and timers end.
  pub Reach-IsWedged :
      (current : CurrentMessage Buf) {w u : World Buf}
      → IsWedged current w
      → Reach modbus (λ e. Unit {0}) w u
      → IsWedged current u
  Reach-IsWedged current v here = v
  Reach-IsWedged current v (next {v = x} e r en _ eq) =
      rw eq (advance-IsWedged e x current (Reach-IsWedged current v r) en)

  make_response-invalid :
      (b : Buf) (size : ℕ) (c : TcpClient Buf) (current : CurrentMessage Buf)
      → c.current_message ≡ some current
      → (modbus.set_adu_size size b).0 ≡ false
      → make_response modbus b size c ≡ (none, c)
  unfolding make_response
  make_response-invalid b size c current kept bad = ground arith

  -- Let a TCP client have a current request and one operation on the wire, a receive. If that
  -- receive brings bytes whose size SetAduSize refuses, then in every world that follows the
  -- request is still current and nothing is being sent or received.
  pub invalid_size_wedges :
      (w u : World Buf) (current : CurrentMessage Buf) (b : Buf) (size : ℕ) (clock : ℕ → ℕ)
      → InFlight w
      → 0 < w.pending.receives
      → w.client.current_message ≡ some current
      → (modbus.set_adu_size size b).0 ≡ false
      → Reach modbus (λ e. Unit {0}) (advance modbus (receive_ends true none b size clock) w) u
      → IsWedged current u
  unfolding on_receive
  invalid_size_wedges w u current b size clock v one kept bad r =
      Reach-IsWedged current
        (rw (make_response-invalid b size w.client current kept bad) (
          queue_process-IsWedged clock (record w.client { state = connected })
            (record w.pending { receives = w.pending.receives - 1 }) current
            (record { kept = kept; silent = omega (arith, v.single) })))
        r

  advance-IsStalled :
      (e : Event Buf) (w : World Buf) (queue : LimitQueue (ModbusMessage Buf))
      → IsStalled queue w
      → Enabled e w.pending
      → NotAnArrival e
      → IsStalled queue (advance modbus e w)
  unfolding on_wait
  advance-IsStalled (message_arrives m clock) w queue v h n = absurd n
  advance-IsStalled (connect_ends peer ec clock) w queue v h n = absurd (omega (arith, v.silent))
  advance-IsStalled (send_ends ec) w queue v h n = absurd (omega (arith, v.silent))
  advance-IsStalled (wait_ends ec) w queue v h n = ground arith
  advance-IsStalled (receive_ends alive ec b size clock) w queue v h n =
      absurd (omega (arith, v.silent))

  Reach-IsStalled :
      (queue : LimitQueue (ModbusMessage Buf)) {w u : World Buf}
      → IsStalled queue w
      → Reach modbus NotAnArrival w u
      → IsStalled queue u
  Reach-IsStalled queue v here = v
  Reach-IsStalled queue v (next {v = x} e r en n eq) =
      rw eq (advance-IsStalled e x queue (Reach-IsStalled queue v r) en n)

  -- Let a TCP client have one operation on the wire, a receive, and no attempt to connect. If that
  -- receive is cancelled, as the timeout does, then the client has no current request and an open
  -- connection, and as long as no further message arrives its queue stays as it is and nothing is
  -- connected, sent or received.
  pub timeout_stalls :
      (w u : World Buf) (b : Buf) (size : ℕ) (clock : ℕ → ℕ)
      → InFlight w
      → 0 < w.pending.receives
      → w.pending.connects ≡ 0
      → Reach modbus NotAnArrival
          (advance modbus (receive_ends true (some operation_aborted) b size clock) w)
          u
      → IsStalled w.client.message_queue u
  unfolding on_receive
  timeout_stalls w u b size clock v one none_open r =
      Reach-IsStalled w.client.message_queue
        (record {
          kept = refl;
          open_connection = refl;
          free = refl;
          silent = omega (arith, v.single);
        })
        r
