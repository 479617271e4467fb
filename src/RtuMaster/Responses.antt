-- ===== src/RtuMaster/Responses.antt =====
-- Which response the master forwards, and to whom.
use modbus_gateway.Base.{
  ℕ, ◌≡◌, ◌∙◌, Bool, true, false, ◌&&◌, Option, none, some, List, [], ◌∷◌, ◌++◌, if◌then◌else◌,
  arith,
}
use modbus_gateway.Asio.{Completion}
use modbus_gateway.Modbus.{Modbus}
use modbus_gateway.Message.{Message, modbus_message, ModbusMessage}
use modbus_gateway.Transport.{Effect, delivered}
use modbus_gateway.RtuMaster.{
  RtuMaster, CurrentMessage, queue_process, on_read, make_response, forward,
}

module _ {Buf : Type 0} (modbus : Modbus Buf) where
  -- Whether the bytes read answer a request: a size that SetAduSize accepts, and a frame that the
  -- check accepts.
  abbrev pub answers : Buf → ℕ → Bool
  answers b size =
      let sized = modbus.set_adu_size size b in sized.0 && modbus.check_no_error sized.1

  -- The response goes to the source of the request, with the request's own information.
  abbrev pub response_to : CurrentMessage Buf → Buf → ℕ → ℕ × Message Buf
  response_to current b size = (
    current.modbus_message.info.source_id,
    modbus_message (record {
      info = current.modbus_message.info;
      buffer = some (modbus.set_adu_size size b).1;
    }),
  )

  -- The messages that an ended read should send to the exchange.
  abbrev pub expected :
      Option (CurrentMessage Buf) → Bool → Completion → Buf → ℕ → List (ℕ × Message Buf)
  expected none alive ec b size = []
  expected (some current) alive (some e) b size = []
  expected (some current) alive none b size =
      if alive && answers b size then response_to current b size ∷ [] else []

  queue_process-delivered :
      (clock : ℕ → ℕ) (c : RtuMaster Buf) → delivered (queue_process modbus clock c).1 ≡ []
  unfolding queue_process
  queue_process-delivered clock c = ground arith

  delivered-forward :
      (r : Option (ModbusMessage Buf)) (es : List (Effect Buf))
      → delivered es ≡ []
      → delivered (forward modbus r ++ es) ≡ delivered (forward modbus r)
  delivered-forward none es h = h
  delivered-forward (some m) es h = rw h

  make_response-delivered :
      (b : Buf) (size : ℕ) (c : RtuMaster Buf)
      → delivered (forward modbus (make_response modbus b size c).0)
        ≡ expected c.current_message true none b size
  unfolding make_response
  make_response-delivered b size c = ground arith

  -- When a read ends, an RTU master sends the exchange a message exactly if the exchange exists,
  -- the operation succeeded, a request is current, the size of the bytes is accepted and their
  -- frame is valid. It is one message, with those bytes and the information of the request,
  -- addressed to the source of that request.
  pub on_read-delivered :
      (alive : Bool) (ec : Completion) (b : Buf) (size : ℕ) (clock : ℕ → ℕ) (c : RtuMaster Buf)
      → delivered (on_read modbus alive ec b size clock c).1
        ≡ expected c.current_message alive ec b size
  unfolding on_read
  on_read-delivered false ec b size clock c = ground arith
  on_read-delivered true (some e) b size clock c = ground arith
  on_read-delivered true none b size clock c =
      let after : RtuMaster Buf = (make_response modbus b size c).1 in
      delivered-forward (make_response modbus b size c).0 (queue_process modbus clock after).1
        (queue_process-delivered clock after)
      ∙ make_response-delivered b size c
