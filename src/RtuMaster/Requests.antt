-- ===== src/RtuMaster/Requests.antt =====
-- Which message the master sends next.
use modbus_gateway.Base.{ℕ, false, ◌≡◌, refl, none, some, List, [], ◌∷◌, arith}
use modbus_gateway.Modbus.{Modbus, increment}
use modbus_gateway.Message.{ModbusMessage, modbus_message}
use modbus_gateway.Transport.{drop_expired, start_send}
use modbus_gateway.Transport.Expiry.{Splits, drop_expired_lem, is_expired, drop_expired-here}
use modbus_gateway.LimitQueue.{push, size}
use modbus_gateway.LimitQueue.Laws.{push_within}
use modbus_gateway.RtuMaster.{
  receive, process_message, RtuMaster, Outcome, queue_process, take_message, request_frame,
}

module _ {Buf : Type 0} (modbus : Modbus Buf) where
  -- What becomes of the messages that are left when the expired ones are dropped: with none left
  -- the queue is empty and nothing happens; otherwise the first becomes current under the next
  -- transaction id, the others stay queued, and its converted frame is sent.
  abbrev pub Takes : RtuMaster Buf → List (ModbusMessage Buf) → Outcome Buf → Type 0
  Takes c [] o =
      (o.0.message_queue.queue ≡ [])
      × (o.0.current_message ≡ none)
      × (o.0.transaction_id_generator ≡ c.transaction_id_generator)
      × (o.1 ≡ [])
  Takes c (m ∷ ms) o =
      let id = increment modbus.transaction_id_limit c.transaction_id_generator in
      (o.0.message_queue.queue ≡ ms)
      × (o.0.transaction_id_generator ≡ id)
      × ((b : Buf)
          → m.buffer ≡ some b
          → let frame = request_frame modbus c.frame_type b in
            (o.0.current_message
              ≡ some (record { modbus_message = record m { buffer = some frame }; id = id }))
            × (o.1 ≡ start_send frame (modbus.get_adu_size frame) ∷ []))

  take_message-Takes :
      (ms : List (ModbusMessage Buf)) (c : RtuMaster Buf)
      → c.current_message ≡ none
      → Takes c ms (take_message modbus ms c)
  unfolding take_message
  take_message-Takes [] c h = (refl, h, refl, refl)
  take_message-Takes (m ∷ ms) c h = ground arith

  queue_process-free :
      (clock : ℕ → ℕ) (c : RtuMaster Buf)
      → c.current_message ≡ none
      → queue_process modbus clock c
        ≡ take_message modbus (drop_expired c.timeout clock c.message_queue.queue) c
  unfolding queue_process drop_expired
  queue_process-free clock c h = ground arith

  -- When an RTU master without a current message processes its queue, it drops exactly the expired
  -- messages in front of the first live one. If none is left, nothing else happens. Otherwise the
  -- live one becomes current under the next transaction id, the others stay queued in their order,
  -- and, if it has a buffer, its converted frame is written.
  pub queue_process-Starts :
      (clock : ℕ → ℕ) (c : RtuMaster Buf)
      → c.current_message ≡ none
      → (rest : List (ModbusMessage Buf)) × Splits c.timeout clock c.message_queue.queue rest
        × Takes c rest (queue_process modbus clock c)
  queue_process-Starts clock c h =
      let rest = drop_expired c.timeout clock c.message_queue.queue in
      (
        rest,
        drop_expired_lem c.timeout clock c.message_queue.queue,
        rw (queue_process-free clock c h) (take_message-Takes rest c h),
      )

  -- A master with nothing to do writes the message that arrives, unless it is expired.
  pub receive-writes :
      (m : ModbusMessage Buf) (b : Buf) (clock : ℕ → ℕ) (c : RtuMaster Buf)
      → c.current_message ≡ none
      → c.message_queue.queue ≡ []
      → is_expired c.timeout (clock 0) m ≡ false
      → m.buffer ≡ some b
      → let id = increment modbus.transaction_id_limit c.transaction_id_generator in
        let frame = request_frame modbus c.frame_type b in
        let o = receive modbus (modbus_message m) clock c in
        (o.1 ≡ start_send frame (modbus.get_adu_size frame) ∷ [])
        × (o.0.current_message
            ≡ some (record { modbus_message = record m { buffer = some frame }; id = id }))
  unfolding receive process_message take_message size
  receive-writes m b clock c f q x e =
      let c' : RtuMaster Buf = record c { message_queue = push m c.message_queue } in
      let only : c'.message_queue.queue ≡ m ∷ [] =
        rw (push_within m c.message_queue (ground arith), q) in
      rw (queue_process-free clock c' f, only, drop_expired-here c.timeout clock m [] x)
        (ground arith)
