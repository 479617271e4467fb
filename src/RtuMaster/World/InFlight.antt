-- ===== src/RtuMaster/World/InFlight.antt =====
-- At most one request is on the line.
use modbus_gateway.Base.{
  ℕ, ◌+◌, ◌≤◌, ◌<◌, ◌≡◌, refl, Bool, true, false, Option, none, some, List, ◌++◌, arith,
}
use modbus_gateway.Asio.{Completion}
use modbus_gateway.Modbus.{Modbus, FrameType}
use modbus_gateway.LimitQueue.{push}
use modbus_gateway.Message.{ModbusMessage, modbus_message, client_disconnect}
use modbus_gateway.Transport.{Effect, Pending, issue}
use modbus_gateway.RtuMaster.{
  RtuMaster, forward, make_rtu_master, queue_process, process_message, receive, on_write, on_wait,
  on_read, make_response,
}
use modbus_gateway.RtuMaster.World.{
  World, Event, Enabled, finish, after, advance, start_world, Reach, here, next, message_arrives,
  write_ends, wait_ends, read_ends,
}

abbrev pub is_some {ℓ} : {A : Type ℓ} → Option A → Bool
is_some none = false
is_some (some a) = true

-- One write or read at most, and only for the current message.
pub record InFlight {Buf : Type 0} (w : World Buf) : Type 0 where
  pub single : w.pending.sends + w.pending.receives ≤ 1
  pub current : 0 < w.pending.sends + w.pending.receives → is_some w.master.current_message ≡ true

module _ {Buf : Type 0} (modbus : Modbus Buf) where
  queue_process-InFlight :
      (clock : ℕ → ℕ) (c : RtuMaster Buf) (p : Pending)
      → InFlight (record { master = c; pending = p })
      → InFlight (after (queue_process modbus clock c) p)
  unfolding queue_process
  queue_process-InFlight clock c p v = ground arith

  pub issue-forward :
      (r : Option (ModbusMessage Buf)) (es : List (Effect Buf)) (p : Pending)
      → issue (forward modbus r ++ es) p ≡ issue es p
  issue-forward none es p = refl
  issue-forward (some m) es p = refl

  read_ends-InFlight :
      (alive : Bool) (ec : Completion) (b : Buf) (size : ℕ) (clock : ℕ → ℕ) (c : RtuMaster Buf)
      (p : Pending)
      → p.sends + p.receives ≡ 0
      → InFlight (after (on_read modbus alive ec b size clock c) p)
  unfolding on_read
  read_ends-InFlight false ec b size clock c p h = ground arith
  read_ends-InFlight true (some ec) b size clock c p h = ground arith
  read_ends-InFlight true none b size clock c p h =
      rw (issue-forward (make_response modbus b size c).0) (
        queue_process-InFlight clock (make_response modbus b size c).1 p
          (record { single = omega arith; current = λ q. absurd (omega arith) }))

  advance-InFlight :
      (e : Event Buf) (w : World Buf)
      → InFlight w
      → Enabled e w.pending
      → InFlight (advance modbus e w)
  unfolding receive process_message on_write on_wait
  advance-InFlight (message_arrives (modbus_message m) clock) w v h =
      queue_process-InFlight clock
        (record w.master { message_queue = push m w.master.message_queue }) w.pending
        (record { single = v.single; current = v.current })
  advance-InFlight (message_arrives (client_disconnect i) clock) w v h = v
  advance-InFlight (write_ends ec) w v h = ground arith
  advance-InFlight (wait_ends ec) w v h = ground arith
  advance-InFlight (read_ends alive ec b size clock) w v h =
      read_ends-InFlight alive ec b size clock w.master
        (finish (read_ends alive ec b size clock) w.pending) (omega (arith, v.single))

  -- Whatever arrives and however the operations of asio end, an RTU master that was just made never
  -- has more than one write or read outstanding, and has one only while it has a current message.
  pub Reach-OneOnLine :
      (id timeout : ℕ) (frame_type : FrameType) {w : World Buf}
      → Reach modbus (λ e. Unit {0}) (start_world id timeout frame_type) w
      → InFlight w
  unfolding make_rtu_master
  Reach-OneOnLine id timeout frame_type here = ground arith
  Reach-OneOnLine id timeout frame_type (next {v = v} e r en _ eq) =
      rw eq (advance-InFlight e v (Reach-OneOnLine id timeout frame_type r) en)
