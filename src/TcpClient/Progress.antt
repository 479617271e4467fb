-- ===== src/TcpClient/Progress.antt =====
-- What the client does when a response has come: it goes on with the next request.
use modbus_gateway.Base.{ℕ, ◌≡◌, refl, ap, true, Option, none, some, List, [], ◌∷◌, ◌++◌, arith}
use modbus_gateway.Modbus.{Modbus}
use modbus_gateway.Message.{ModbusMessage}
use modbus_gateway.Transport.{frames, cancel_timer}
use modbus_gateway.Transport.Expiry.{Splits}
use modbus_gateway.TcpClient.{
  TcpClient, CurrentMessage, Outcome, connected, queue_process, on_receive, make_response, forward,
}
use modbus_gateway.TcpClient.Requests.{Takes, queue_process-Takes}

-- The client between two requests.
abbrev pub idle_again : {Buf : Type 0} → TcpClient Buf → TcpClient Buf
idle_again c = record c { current_message = none; state = connected }

module _ {Buf : Type 0} (modbus : Modbus Buf) where
  make_response_clears :
      (b : Buf) (size : ℕ) (c : TcpClient Buf) (current : CurrentMessage Buf)
      → c.current_message ≡ some current
      → (modbus.set_adu_size size b).0 ≡ true
      → (make_response modbus b size c).1 ≡ record c { current_message = none }
  unfolding make_response
  make_response_clears b size c current h v = ground arith

  Takes-frames :
      (c : TcpClient Buf) (r : Option (ModbusMessage Buf)) (ms : List (ModbusMessage Buf))
      (o : Outcome Buf)
      → Takes modbus c ms o
      → Takes modbus c ms (o.0, frames (cancel_timer ∷ (forward modbus r ++ o.1)))
  Takes-frames c none [] o (q, f, s, g, e) = (q, f, s, g, ap frames e)
  Takes-frames c (some m) [] o (q, f, s, g, e) = (q, f, s, g, ap frames e)
  Takes-frames c none (x ∷ xs) o (q, s, g, k) = (q, s, g, λ b e. ((k b e).0, ap frames (k b e).1))
  Takes-frames c (some m) (x ∷ xs) o (q, s, g, k) =
      (q, s, g, λ b e. ((k b e).0, ap frames (k b e).1))

  -- When a receive brings bytes of an accepted size for a current request, whether or not they are a
  -- valid response, a TCP client drops exactly the expired messages in front of the first live one of
  -- its queue. If none is left, the client has an open connection and no current request, and sends
  -- nothing. Otherwise the live one becomes current under the next transaction id, the others stay
  -- queued in their order, and, if it has a buffer, its converted frame with that id is the one frame
  -- that is sent.
  pub on_receive_continues :
      (b : Buf) (size : ℕ) (clock : ℕ → ℕ) (c : TcpClient Buf) (current : CurrentMessage Buf)
      → c.current_message ≡ some current
      → (modbus.set_adu_size size b).0 ≡ true
      → let o = on_receive modbus true none b size clock c in
        (rest : List (ModbusMessage Buf)) × Splits c.timeout clock c.message_queue.queue rest
        × Takes modbus (idle_again c) rest (o.0, frames o.1)
  unfolding on_receive
  on_receive_continues b size clock c current h v =
      let (rest, splits, takes) = queue_process-Takes modbus clock (idle_again c) refl refl in
      (
        rest,
        splits,
        rw (make_response_clears b size c current h v) (
            Takes-frames (idle_again c) (make_response modbus b size c).0 rest
              (queue_process modbus clock (idle_again c)) takes),
      )
