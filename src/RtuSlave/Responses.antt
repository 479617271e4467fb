-- ===== src/RtuSlave/Responses.antt =====
-- Which response an RTU slave writes.
use modbus_gateway.Base.{ℕ, ◌≡◌, refl, Bool, true, false, ◌&&◌, none, some, [], ◌∷◌, ◌==◌, arith}
use modbus_gateway.Modbus.{Modbus, Laws, Carries, update-Carries}
use modbus_gateway.Router.{Router, route}
use modbus_gateway.Message.{ModbusMessage, Message, modbus_message, client_disconnect}
use modbus_gateway.Transport.{start_send, deliver}
use modbus_gateway.RtuSlave.{
  RtuSlave, make_request, on_read, make_response, receive, response_frame, start_read_task, next_id,
}

-- The message answers the last request: it is addressed to this slave and has the request's
-- transaction id.
abbrev pub answers : {Buf : Type 0} → RtuSlave → ModbusMessage Buf → Bool
answers c m = elim c.request_info [
  | none ↦ false
  | some last ↦ c.id == m.info.source_id && last.transaction_id == m.info.transaction_id
]

module _ {Buf : Type 0} (modbus : Modbus Buf) where
  -- A message that does not answer the last request of an RTU slave, since it is for another actor
  -- or another request or there is none, changes nothing, and nothing is written.
  pub write_refuses :
      (c : RtuSlave) (m : ModbusMessage Buf)
      → answers c m ≡ false
      → receive modbus (modbus_message m) c ≡ (c, [])
  unfolding receive make_response
  write_refuses c m h = ground arith

  -- With the documented behaviour of the buffers, a message with a buffer that answers the last
  -- request of an RTU slave is written in one frame, and the request is forgotten. The frame is of the
  -- frame type of the slave, has the unit id, the function code and the data of the buffer, and its
  -- length and checksum fit them.
  pub write_matching :
      (laws : Laws modbus) (c : RtuSlave) (m : ModbusMessage Buf) (b : Buf)
      → answers c m ≡ true
      → m.buffer ≡ some b
      → (frame : Buf) × (receive modbus (modbus_message m) c
          ≡ (record c { request_info = none }, start_send frame (modbus.get_adu_size frame) ∷ []))
        × Carries modbus laws c.frame_type b frame
  unfolding receive make_response
  write_matching laws c m b h e =
      (response_frame modbus c b, ground arith, update-Carries modbus laws c.frame_type b)

  -- An RTU slave writes no two messages for one request: after a message that answered the last
  -- request, whatever message comes next changes nothing, and nothing is written.
  pub write_once :
      (c : RtuSlave) (m : ModbusMessage Buf) (m' : Message Buf)
      → answers c m ≡ true
      → let c' = (receive modbus (modbus_message m) c).0 in receive modbus m' c' ≡ (c', [])
  unfolding receive make_response
  write_once c m (modbus_message m') h = ground arith
  write_once c m (client_disconnect i) h = refl

  -- If a read succeeds while the exchange exists, with a size that is accepted and a valid frame
  -- whose unit id is routed, then the frame uses up the next transaction id, becomes the last
  -- request of the RTU slave, in place of any other, and is sent to the routed actor, and the next
  -- read is started. The request carries the id of the slave, the new transaction id, the time, and
  -- the frame itself.
  pub on_read_request :
      (router : Router) (b : Buf) (size now actor : ℕ) (c : RtuSlave)
      → (modbus.set_adu_size size b).0 ≡ true
      → modbus.check_no_error (modbus.set_adu_size size b).1 ≡ true
      → route router (modbus.get_unit_id (modbus.set_adu_size size b).1) ≡ some actor
      → (m : ModbusMessage Buf) × (on_read modbus router true none b size now c ≡ (
        record c { id_generator = next_id modbus c; request_info = some m.info },
        deliver actor (modbus_message m) ∷ start_read_task modbus c ∷ [],
      ))
        × (m.info.source_id ≡ c.id)
        × (m.info.transaction_id ≡ next_id modbus c)
        × (m.info.create_timestamp ≡ now)
        × (m.info.timeout_reached ≡ false)
        × (m.buffer ≡ some (modbus.set_adu_size size b).1)
  unfolding on_read make_request
  on_read_request router b size now actor c v k r = (
    record {
      info = record {
        create_timestamp = now;
        timeout_reached = false;
        source_id = c.id;
        transaction_id = next_id modbus c;
      };
      buffer = some (modbus.set_adu_size size b).1;
    },
    ground arith,
    refl,
    refl,
    refl,
    refl,
    refl,
  )
