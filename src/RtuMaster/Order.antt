-- ===== src/RtuMaster/Order.antt =====
-- The order in which the master sends the requests that arrive.
use modbus_gateway.Base.{
  ℕ, zero, suc, ◌≡◌, refl, true, false, Option, none, some, List, [], ◌∷◌, ◌++◌, arith, subst,
  IsSublist, IsSublist-skip, IsSublist-refl, IsSublist-trans, IsSublist-then,
}
use mathlib.Core.List.{append-nil}
use modbus_gateway.Modbus.{Modbus, FrameType}
use modbus_gateway.LimitQueue.{LimitQueue, push}
use modbus_gateway.Message.{ModbusMessage, modbus_message, client_disconnect}
use modbus_gateway.Transport.Keys.{Key, key_of, keys, keys-drop_expired, keys-push}
use modbus_gateway.Transport.{cancel_timer, sends_of, drop_expired}
use modbus_gateway.RtuMaster.{
  RtuMaster, CurrentMessage, Outcome, make_rtu_master, forward, take_message, queue_process,
  process_message, receive, on_write, on_wait, on_read, make_response,
}
use modbus_gateway.RtuMaster.World.{
  Event, handle, message_arrives, write_ends, wait_ends, read_ends,
}

-- The requests that arrive.
abbrev pub arrivals : {Buf : Type 0} → List (Event Buf) → List Key
arrivals [] = []
arrivals (message_arrives (modbus_message m) clock ∷ es) = key_of m ∷ arrivals es
arrivals (_ ∷ es) = arrivals es

-- The request that a handler sends, if it sends one: the current message after it.
abbrev pub current_key : {Buf : Type 0} → Option (CurrentMessage Buf) → List Key
current_key none = []
current_key (some current) = key_of current.modbus_message ∷ []

abbrev pub sent : {Buf : Type 0} → Outcome Buf → List Key
sent o = elim (sends_of o.1) [ zero ↦ [] | suc n ↦ current_key o.0.current_message ]

module _ {Buf : Type 0} (modbus : Modbus Buf) where
  -- The requests that are sent in the course of the events, and the master after them.
  unfoldable pub run : List (Event Buf) → RtuMaster Buf → List Key × RtuMaster Buf
  run [] c = ([], c)
  run (e ∷ es) c = let o = handle modbus e c in let (more, c') = run es o.0 in (sent o ++ more, c')

  -- What a handler sends and leaves in the queue, in this order, was in the queue or arrived.
  abbrev InOrder : Outcome Buf → List Key → Type 0
  InOrder o before = IsSublist (sent o ++ keys o.0.message_queue.queue) before

  take_message-InOrder :
      (ms : List (ModbusMessage Buf)) (c : RtuMaster Buf)
      → InOrder (take_message modbus ms c) (keys ms)
  unfolding take_message
  take_message-InOrder [] c = ground arith
  take_message-InOrder (m ∷ ms) c =
      ground (arith, IsSublist-refl (keys ms), IsSublist-skip (keys ms) (key_of m) (keys ms))

  queue_process-InOrder :
      (clock : ℕ → ℕ) (c : RtuMaster Buf)
      → InOrder (queue_process modbus clock c) (keys c.message_queue.queue)
  unfolding queue_process
  queue_process-InOrder clock c =
      let rest = drop_expired c.timeout clock c.message_queue.queue in
      ground (
        arith,
        IsSublist-refl (keys c.message_queue.queue),
        IsSublist-trans _ (keys rest) (keys c.message_queue.queue) (take_message-InOrder rest c)
            (keys-drop_expired c.timeout clock c.message_queue.queue),
      )

  InOrder-forward :
      (r : Option (ModbusMessage Buf)) (o : Outcome Buf) (before : List Key)
      → InOrder o before
      → InOrder (o.0, cancel_timer ∷ (forward modbus r ++ o.1)) before
  InOrder-forward none o before h = h
  InOrder-forward (some m) o before h = h

  make_response-queue :
      (b : Buf) (size : ℕ) (c : RtuMaster Buf)
      → (make_response modbus b size c).1.message_queue ≡ c.message_queue
  unfolding make_response
  make_response-queue b size c = ground arith

  handle-InOrder :
      (e : Event Buf) (c : RtuMaster Buf)
      → InOrder (handle modbus e c) (keys c.message_queue.queue ++ arrivals (e ∷ []))
  unfolding receive process_message on_write on_wait on_read
  handle-InOrder (message_arrives (modbus_message m) clock) c =
      IsSublist-trans _ (keys (push m c.message_queue).queue) _
        (queue_process-InOrder clock (record c { message_queue = push m c.message_queue }))
        (keys-push m c.message_queue)
  handle-InOrder (message_arrives (client_disconnect i) clock) c =
      rw append-nil (IsSublist-refl (keys c.message_queue.queue))
  handle-InOrder (write_ends ec) c =
      rw append-nil (ground (arith, IsSublist-refl (keys c.message_queue.queue)))
  handle-InOrder (wait_ends ec) c =
      rw append-nil (ground (arith, IsSublist-refl (keys c.message_queue.queue)))
  handle-InOrder (read_ends false ec b size clock) c =
      rw append-nil (IsSublist-refl (keys c.message_queue.queue))
  handle-InOrder (read_ends true (some ec) b size clock) c =
      rw append-nil (ground (arith, IsSublist-refl (keys c.message_queue.queue)))
  handle-InOrder (read_ends true none b size clock) c =
      let after : RtuMaster Buf = (make_response modbus b size c).1 in
      rw append-nil (
        InOrder-forward (make_response modbus b size c).0 (queue_process modbus clock after)
          (keys c.message_queue.queue)
          (subst
            (λ (q : LimitQueue (ModbusMessage Buf)).
              InOrder (queue_process modbus clock after) (keys q.queue))
            (make_response-queue b size c) (queue_process-InOrder clock after)))

  arrivals-cons :
      (e : Event Buf) (es : List (Event Buf)) → arrivals (e ∷ es) ≡ arrivals (e ∷ []) ++ arrivals es
  arrivals-cons (message_arrives (modbus_message m) clock) es = refl
  arrivals-cons (message_arrives (client_disconnect i) clock) es = refl
  arrivals-cons (write_ends ec) es = refl
  arrivals-cons (wait_ends ec) es = refl
  arrivals-cons (read_ends alive ec b size clock) es = refl

  run-InOrder :
      (es : List (Event Buf)) (c : RtuMaster Buf)
      → IsSublist
          ((run es c).0 ++ keys (run es c).1.message_queue.queue)
          (keys c.message_queue.queue ++ arrivals es)
  unfolding run
  run-InOrder [] c = rw append-nil (IsSublist-refl (keys c.message_queue.queue))
  run-InOrder (e ∷ es) c =
      let o = handle modbus e c in
      rw (arrivals-cons e es) (
        IsSublist-then (sent o) (run es o.0).0 (keys (run es o.0).1.message_queue.queue)
          (keys c.message_queue.queue) (arrivals (e ∷ [])) (arrivals es)
          (keys o.0.message_queue.queue) (handle-InOrder e c) (run-InOrder es o.0))

  -- Over any sequence of events, the requests that an RTU master which was just made has written, followed
  -- by those still in its queue, are among the requests that have arrived, in the order of arrival and
  -- each at most as often as it arrived. A request is known by its source and transaction id.
  pub run-writes_in_order :
      (id timeout : ℕ) (frame_type : FrameType) (es : List (Event Buf))
      → let (writes, master) = run es (make_rtu_master id timeout frame_type) in
        IsSublist (writes ++ keys master.message_queue.queue) (arrivals es)
  unfolding make_rtu_master
  run-writes_in_order id timeout frame_type es =
      run-InOrder es (make_rtu_master id timeout frame_type)
