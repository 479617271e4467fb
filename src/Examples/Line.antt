-- ===== src/Examples/Line.antt =====
-- A request from one serial line to another at a concrete input: from RTU frames to ASCII frames.
use modbus_gateway.Base.{refl, true, none, [], ◌∷◌, arith}
use modbus_gateway.Modbus.{rtu, ascii}
use modbus_gateway.LimitQueue.{size_max}
use modbus_gateway.Router.{default_router}
use modbus_gateway.Router.Laws.{route-default_router}
use modbus_gateway.RtuMaster.{RtuMaster}
use modbus_gateway.RtuSlave.{RtuSlave}
use modbus_gateway.Journey.Line.{ComesAcross, request_crosses}
use modbus_gateway.Examples.Samples.{Frame, modbus, modbus-Laws}

abbrev request : Frame
request = record {
  type = rtu;
  unit_id = 17;
  size = 0;
  transaction_id = 0;
  pdu = 3 ∷ 0 ∷ [];
  fits = true;
}

abbrev answer : Frame
answer = record {
  type = ascii;
  unit_id = 17;
  size = 0;
  transaction_id = 0;
  pdu = 3 ∷ 0 ∷ [];
  fits = true;
}

abbrev slave : RtuSlave
slave = record { id = 4; frame_type = rtu; id_generator = 65535; request_info = none }

abbrev master : RtuMaster Frame
master = record {
  id = 6;
  timeout = 500;
  frame_type = ascii;
  message_queue = record { queue = []; max_size = size_max };
  current_message = none;
  transaction_id_generator = 12;
}

request_crosses_example :
    ComesAcross modbus modbus-Laws
      (default_router 255 6)
      slave
      master
      request
      answer
      8
      7
      100
      6
      (λ i. 200)
      (λ i. 300)
request_crosses_example =
    request_crosses modbus modbus-Laws (default_router 255 6) slave master request answer 8 7 100 6
      (λ i. 200) (λ i. 300) refl refl (route-default_router 255 6 17 (omega arith)) refl refl refl
      refl refl
