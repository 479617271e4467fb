-- ===== src/TcpClient/Responses.antt =====
-- Which response the client forwards, and to whom.
use modbus_gateway.Base.{
  ℕ, ◌≡◌, ◌∙◌, Bool, true, false, ◌&&◌, Option, none, some, List, [], ◌∷◌, ◌++◌, ◌==◌,
  if◌then◌else◌, arith,
}
use modbus_gateway.Asio.{Completion}
use modbus_gateway.Modbus.{Modbus}
use modbus_gateway.Message.{Message, modbus_message, ModbusMessage}
use modbus_gateway.Transport.{Effect, delivered}
use modbus_gateway.TcpClient.{
  TcpClient, CurrentMessage, connected, queue_process, on_receive, make_response, forward,
}

module _ {Buf : Type 0} (modbus : Modbus Buf) where
  -- Whether the received bytes answer the request: a size that SetAduSize accepts, a frame that the
  -- check accepts, and the transaction id under which the request was sent.
  abbrev pub answers : CurrentMessage Buf → Buf → ℕ → Bool
  answers current b size =
      let sized = modbus.set_adu_size size b in
      sized.0
      && (modbus.tcp_check_no_error sized.1 && modbus.get_transaction_id sized.1 == current.id)

  -- The response goes to the source of the request, with the request's own information.
  abbrev pub response_to : CurrentMessage Buf → Buf → ℕ → ℕ × Message Buf
  response_to current b size = (
    current.modbus_message.info.source_id,
    modbus_message (record {
      info = current.modbus_message.info;
      buffer = some (modbus.set_adu_size size b).1;
    }),
  )

  -- The messages that an ended receive should send to the exchange.
  abbrev pub expected :
      Option (CurrentMessage Buf) → Bool → Completion → Buf → ℕ → List (ℕ × Message Buf)
  expected none alive ec b size = []
  expected (some current) alive (some e) b size = []
  expected (some current) alive none b size =
      if alive && answers current b size then response_to current b size ∷ [] else []

  queue_process-delivered :
      (clock : ℕ → ℕ) (c : TcpClient Buf) → delivered (queue_process modbus clock c).1 ≡ []
  unfolding queue_process
  queue_process-delivered clock c = ground arith

  delivered-forward :
      (r : Option (ModbusMessage Buf)) (es : List (Effect Buf))
      → delivered es ≡ []
      → delivered (forward modbus r ++ es) ≡ delivered (forward modbus r)
  delivered-forward none es h = h
  delivered-forward (some m) es h = rw h

  make_response-delivered :
      (b : Buf) (size : ℕ) (c : TcpClient Buf)
      → delivered (forward modbus (make_response modbus b size c).0)
        ≡ expected c.current_message true none b size
  unfolding make_response
  make_response-delivered b size c = ground arith

  -- When a receive ends, a TCP client sends the exchange a message exactly if the exchange exists,
  -- the operation succeeded, a request is current and the received bytes answer it: their size is
  -- accepted, their frame is valid, and it has the transaction id under which the request was sent.
  -- It is one message, with those bytes and the information of the request, addressed to the source
  -- of that request.
  pub on_receive-delivered :
      (alive : Bool) (ec : Completion) (b : Buf) (size : ℕ) (clock : ℕ → ℕ) (c : TcpClient Buf)
      → delivered (on_receive modbus alive ec b size clock c).1
        ≡ expected c.current_message alive ec b size
  unfolding on_receive
  on_receive-delivered false ec b size clock c = ground arith
  on_receive-delivered true (some e) b size clock c = ground arith
  on_receive-delivered true none b size clock c =
      let after : TcpClient Buf = record (make_response modbus b size c).1 { state = connected } in
      delivered-forward (make_response modbus b size c).0 (queue_process modbus clock after).1
        (queue_process-delivered clock after)
      ∙ make_response-delivered b size c
