-- ===== src/Examples/Serial.antt =====
-- A serial port with RS-485 at a concrete input.
use modbus_gateway.Base.{if◌then◌else◌, ◌≡◌, refl, true, false, none, some, ltb, ◌==◌, arith}
use modbus_gateway.Exception.{ok, throws, system_error}
use modbus_gateway.Config.Types
use modbus_gateway.Config.Types.{Rs485, RtuOptions}
use modbus_gateway.SerialOptions.{Rs485Bits, SerialRs485, SerialPort, Driver, set_options}
use modbus_gateway.SerialOptions.Flags.{AreDistinct}
use modbus_gateway.SerialOptions.Laws.{Follows, set_options_lem}

abbrev bits : Rs485Bits
bits = record {
  enabled = 0;
  rts_on_send = 1;
  rts_after_send = 2;
  rx_during_tx = 4;
  terminate_bus = 5;
}

bits-AreDistinct : AreDistinct bits
bits-AreDistinct = record {
  enabled-rts_on_send = λ e. omega (arith, e);
  enabled-rts_after_send = λ e. omega (arith, e);
  enabled-rx_during_tx = λ e. omega (arith, e);
  enabled-terminate_bus = λ e. omega (arith, e);
  rts_on_send-rts_after_send = λ e. omega (arith, e);
  rts_on_send-rx_during_tx = λ e. omega (arith, e);
  rts_on_send-terminate_bus = λ e. omega (arith, e);
  rts_after_send-rx_during_tx = λ e. omega (arith, e);
  rts_after_send-terminate_bus = λ e. omega (arith, e);
  rx_during_tx-terminate_bus = λ e. omega (arith, e);
}

abbrev rs485 : Rs485
rs485 = record {
  rts_on_send = some false;
  rts_after_send = some true;
  rx_during_tx = none;
  terminate_bus = none;
  delay_rts_before_send = some 3;
  delay_rts_after_send = none;
}

abbrev options : RtuOptions
options = record {
  baud_rate = 9600;
  character_size = 8;
  parity = Types.Parity.even;
  stop_bits = Types.StopBits.one;
  flow_control = Types.FlowControl.none;
  rs485 = some rs485;
}

-- The driver starts with the bits 1 and 4.
abbrev before : SerialRs485
before = record {
  flags = λ i. if i == 1 then true else i == 4;
  delay_rts_before_send = 0;
  delay_rts_after_send = 7;
}

abbrev port : SerialPort
port = record {
  baud_rate = 0;
  character_size = 8;
  parity = Types.Parity.none;
  stop_bits = Types.StopBits.one;
  flow_control = Types.FlowControl.none;
  rs485 = before;
}

-- It knows one speed, and no delay above 2.
abbrev driver : Driver
driver = record {
  refuses_baud_rate = λ p b. if b == 9600 then none else some "Invalid argument";
  refuses_character_size = λ p n. none;
  refuses_parity = λ p a. none;
  refuses_stop_bits = λ p s. none;
  refuses_flow_control = λ p f. none;
  refuses_get = λ p. none;
  refuses_set = λ p r. none;
  stores = λ p r. record r {
    delay_rts_before_send = if ltb 2 r.delay_rts_before_send then 2 else r.delay_rts_before_send;
  };
}

unknown_speed :
    set_options driver bits (record options { baud_rate = 123 }) port
    ≡ throws (system_error "Invalid argument")
unfolding set_options
unknown_speed = refl

set_options_lem_example :
    (asked : SerialRs485) × Follows driver bits options port rs485 asked
    × (set_options driver bits options port
        ≡ ok (record port {
          baud_rate = 9600;
          parity = Types.Parity.even;
          rs485 = driver.stores port asked;
        }))
set_options_lem_example = set_options_lem driver bits options port bits-AreDistinct
