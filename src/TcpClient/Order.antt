-- ===== src/TcpClient/Order.antt =====
-- The order in which the client sends the requests that arrive.
use modbus_gateway.Base.{
  ℕ, zero, suc, ◌≡◌, refl, true, false, Option, none, some, List, [], ◌∷◌, ◌++◌, arith, subst,
  IsSublist, IsSublist-skip, IsSublist-refl, IsSublist-trans, IsSublist-then,
}
use mathlib.Core.List.{append-nil}
use modbus_gateway.Asio.{stays, left, leaves}
use modbus_gateway.Modbus.{Modbus}
use modbus_gateway.LimitQueue.{LimitQueue, push}
use modbus_gateway.Message.{ModbusMessage, modbus_message, client_disconnect}
use modbus_gateway.Transport.Keys.{Key, key_of, keys, keys-drop_expired, keys-push}
use modbus_gateway.Transport.{cancel_timer, sends_of, drop_expired}
use modbus_gateway.TcpClient.{
  TcpClient, CurrentMessage, Outcome, connected, make_tcp_client, forward, take_message,
  queue_process, process_message, receive, on_connect, on_send, on_wait, on_receive, make_response,
}
use modbus_gateway.TcpClient.World.{
  Event, handle, message_arrives, connect_ends, send_ends, wait_ends, receive_ends,
}

-- The requests that arrive.
abbrev pub arrivals : {Buf : Type 0} → List (Event Buf) → List Key
arrivals [] = []
arrivals (message_arrives (modbus_message m) clock ∷ es) = key_of m ∷ arrivals es
arrivals (_ ∷ es) = arrivals es

-- The request that a handler sends, if it sends one: the current message after it.
abbrev pub current_key : {Buf : Type 0} → Option (CurrentMessage Buf) → List Key
current_key none = []
current_key (some current) = key_of current.modbus_message ∷ []

abbrev pub sent : {Buf : Type 0} → Outcome Buf → List Key
sent o = elim (sends_of o.1) [ zero ↦ [] | suc n ↦ current_key o.0.current_message ]

module _ {Buf : Type 0} (modbus : Modbus Buf) where
  -- The requests that are sent in the course of the events, and the client after them.
  unfoldable pub run : List (Event Buf) → TcpClient Buf → List Key × TcpClient Buf
  run [] c = ([], c)
  run (e ∷ es) c = let o = handle modbus e c in let (more, c') = run es o.0 in (sent o ++ more, c')

  -- What a handler sends and leaves in the queue, in this order, was in the queue or arrived.
  abbrev InOrder : Outcome Buf → List Key → Type 0
  InOrder o before = IsSublist (sent o ++ keys o.0.message_queue.queue) before

  take_message-InOrder :
      (ms : List (ModbusMessage Buf)) (c : TcpClient Buf)
      → InOrder (take_message modbus ms c) (keys ms)
  unfolding take_message
  take_message-InOrder [] c = ground arith
  take_message-InOrder (m ∷ ms) c =
      ground (arith, IsSublist-refl (keys ms), IsSublist-skip (keys ms) (key_of m) (keys ms))

  queue_process-InOrder :
      (clock : ℕ → ℕ) (c : TcpClient Buf)
      → InOrder (queue_process modbus clock c) (keys c.message_queue.queue)
  unfolding queue_process
  queue_process-InOrder clock c =
      let rest = drop_expired c.timeout clock c.message_queue.queue in
      ground (
        arith,
        IsSublist-refl (keys c.message_queue.queue),
        IsSublist-trans _ (keys rest) (keys c.message_queue.queue) (take_message-InOrder rest c)
            (keys-drop_expired c.timeout clock c.message_queue.queue),
      )

  InOrder-forward :
      (r : Option (ModbusMessage Buf)) (o : Outcome Buf) (before : List Key)
      → InOrder o before
      → InOrder (o.0, cancel_timer ∷ (forward modbus r ++ o.1)) before
  InOrder-forward none o before h = h
  InOrder-forward (some m) o before h = h

  make_response-queue :
      (b : Buf) (size : ℕ) (c : TcpClient Buf)
      → (make_response modbus b size c).1.message_queue ≡ c.message_queue
  unfolding make_response
  make_response-queue b size c = ground arith

  handle-InOrder :
      (e : Event Buf) (c : TcpClient Buf)
      → InOrder (handle modbus e c) (keys c.message_queue.queue ++ arrivals (e ∷ []))
  unfolding receive process_message on_connect on_send on_wait on_receive
  handle-InOrder (message_arrives (modbus_message m) clock) c =
      IsSublist-trans _ (keys (push m c.message_queue).queue) _
        (queue_process-InOrder clock (record c { message_queue = push m c.message_queue }))
        (keys-push m c.message_queue)
  handle-InOrder (message_arrives (client_disconnect i) clock) c =
      rw append-nil (IsSublist-refl (keys c.message_queue.queue))
  handle-InOrder (connect_ends left none clock) c =
      rw append-nil (IsSublist-refl (keys c.message_queue.queue))
  handle-InOrder (connect_ends leaves none clock) c =
      rw append-nil (IsSublist-refl (keys c.message_queue.queue))
  handle-InOrder (connect_ends stays none clock) c =
      rw append-nil (queue_process-InOrder clock (record c { state = connected }))
  handle-InOrder (connect_ends peer (some ec) clock) c =
      rw append-nil (IsSublist-refl (keys c.message_queue.queue))
  handle-InOrder (send_ends ec) c =
      rw append-nil (ground (arith, IsSublist-refl (keys c.message_queue.queue)))
  handle-InOrder (wait_ends ec) c =
      rw append-nil (ground (arith, IsSublist-refl (keys c.message_queue.queue)))
  handle-InOrder (receive_ends false ec b size clock) c =
      rw append-nil (IsSublist-refl (keys c.message_queue.queue))
  handle-InOrder (receive_ends true (some ec) b size clock) c =
      rw append-nil (ground (arith, IsSublist-refl (keys c.message_queue.queue)))
  handle-InOrder (receive_ends true none b size clock) c =
      let after : TcpClient Buf = record (make_response modbus b size c).1 { state = connected } in
      rw append-nil (
        InOrder-forward (make_response modbus b size c).0 (queue_process modbus clock after)
          (keys c.message_queue.queue)
          (subst
            (λ (q : LimitQueue (ModbusMessage Buf)).
              InOrder (queue_process modbus clock after) (keys q.queue))
            (make_response-queue b size c) (queue_process-InOrder clock after)))

  arrivals-cons :
      (e : Event Buf) (es : List (Event Buf)) → arrivals (e ∷ es) ≡ arrivals (e ∷ []) ++ arrivals es
  arrivals-cons (message_arrives (modbus_message m) clock) es = refl
  arrivals-cons (message_arrives (client_disconnect i) clock) es = refl
  arrivals-cons (connect_ends peer ec clock) es = refl
  arrivals-cons (send_ends ec) es = refl
  arrivals-cons (wait_ends ec) es = refl
  arrivals-cons (receive_ends alive ec b size clock) es = refl

  run-InOrder :
      (es : List (Event Buf)) (c : TcpClient Buf)
      → IsSublist
          ((run es c).0 ++ keys (run es c).1.message_queue.queue)
          (keys c.message_queue.queue ++ arrivals es)
  unfolding run
  run-InOrder [] c = rw append-nil (IsSublist-refl (keys c.message_queue.queue))
  run-InOrder (e ∷ es) c =
      let o = handle modbus e c in
      rw (arrivals-cons e es) (
        IsSublist-then (sent o) (run es o.0).0 (keys (run es o.0).1.message_queue.queue)
          (keys c.message_queue.queue) (arrivals (e ∷ [])) (arrivals es)
          (keys o.0.message_queue.queue) (handle-InOrder e c) (run-InOrder es o.0))

  -- Over any sequence of events, the requests that a TCP client which was just made has sent, followed
  -- by those still in its queue, are among the requests that have arrived, in the order of arrival and
  -- each at most as often as it arrived. A request is known by its source and transaction id.
  pub run-sends_in_order :
      (id timeout : ℕ) (es : List (Event Buf))
      → let (sends, client) = run es (make_tcp_client id timeout) in
        IsSublist (sends ++ keys client.message_queue.queue) (arrivals es)
  unfolding make_tcp_client
  run-sends_in_order id timeout es = run-InOrder es (make_tcp_client id timeout)
