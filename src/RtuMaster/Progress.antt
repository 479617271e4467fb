-- ===== src/RtuMaster/Progress.antt =====
-- What the master does when a response has come: it goes on with the next request.
use modbus_gateway.Base.{ℕ, ◌≡◌, refl, ap, true, Option, none, some, List, [], ◌∷◌, ◌++◌, arith}
use modbus_gateway.Modbus.{Modbus}
use modbus_gateway.Message.{ModbusMessage}
use modbus_gateway.Transport.{frames, cancel_timer}
use modbus_gateway.Transport.Expiry.{Splits}
use modbus_gateway.RtuMaster.{
  RtuMaster, CurrentMessage, Outcome, queue_process, on_read, make_response, forward,
}
use modbus_gateway.RtuMaster.Requests.{Takes, queue_process-Starts}

-- The master between two requests.
abbrev pub idle_again : {Buf : Type 0} → RtuMaster Buf → RtuMaster Buf
idle_again c = record c { current_message = none }

module _ {Buf : Type 0} (modbus : Modbus Buf) where
  make_response_clears :
      (b : Buf) (size : ℕ) (c : RtuMaster Buf) (current : CurrentMessage Buf)
      → c.current_message ≡ some current
      → (modbus.set_adu_size size b).0 ≡ true
      → (make_response modbus b size c).1 ≡ record c { current_message = none }
  unfolding make_response
  make_response_clears b size c current h v = ground arith

  Takes-frames :
      (c : RtuMaster Buf) (r : Option (ModbusMessage Buf)) (ms : List (ModbusMessage Buf))
      (o : Outcome Buf)
      → Takes modbus c ms o
      → Takes modbus c ms (o.0, frames (cancel_timer ∷ (forward modbus r ++ o.1)))
  Takes-frames c none [] o (q, f, g, e) = (q, f, g, ap frames e)
  Takes-frames c (some m) [] o (q, f, g, e) = (q, f, g, ap frames e)
  Takes-frames c none (x ∷ xs) o (q, g, k) = (q, g, λ b e. ((k b e).0, ap frames (k b e).1))
  Takes-frames c (some m) (x ∷ xs) o (q, g, k) = (q, g, λ b e. ((k b e).0, ap frames (k b e).1))

  -- When a read brings bytes of an accepted size for a current request, whether or not they are a
  -- valid response, an RTU master drops exactly the expired messages in front of the first live one of
  -- its queue. If none is left, the master has no current request and writes nothing. Otherwise the
  -- live one becomes current under the next transaction id, the others stay queued in their order,
  -- and, if it has a buffer, its converted frame is the one frame that is written.
  pub on_read_continues :
      (b : Buf) (size : ℕ) (clock : ℕ → ℕ) (c : RtuMaster Buf) (current : CurrentMessage Buf)
      → c.current_message ≡ some current
      → (modbus.set_adu_size size b).0 ≡ true
      → let o = on_read modbus true none b size clock c in
        (rest : List (ModbusMessage Buf)) × Splits c.timeout clock c.message_queue.queue rest
        × Takes modbus (idle_again c) rest (o.0, frames o.1)
  unfolding on_read
  on_read_continues b size clock c current h v =
      let (rest, splits, takes) = queue_process-Starts modbus clock (idle_again c) refl in
      (
        rest,
        splits,
        rw (make_response_clears b size c current h v) (
            Takes-frames (idle_again c) (make_response modbus b size c).0 rest
              (queue_process modbus clock (idle_again c)) takes),
      )
