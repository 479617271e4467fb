-- ===== src/SerialOptions.antt =====
-- transport/rtu_options.cpp: SetOptions, which ModbusRtuMaster calls on its port. The
-- numbers of the bits in `serial_rs485::flags` are those of linux/serial.h, and asio and the driver say
-- which options they refuse: parameters.
pub mod Flags
pub mod Laws
use Prim.Native.String.{String}
use Prim.Native.String
use modbus_gateway.Base.{ℕ, Bool, true, false, not, ◌||◌, ◌&&◌, ◌==◌, Option, none, some}
use modbus_gateway.Exception.{
  Exception, runtime_error, system_error, Result, ok, throws, ◌>>=◌, ◌>>◌,
}
use modbus_gateway.Config.Types.{Parity, StopBits, FlowControl, Rs485, RtuOptions}

-- SER_RS485_ENABLED, SER_RS485_RTS_ON_SEND and so on, by the number of the bit.
pub record Rs485Bits : Type 0 where
  pub enabled : ℕ
  pub rts_on_send : ℕ
  pub rts_after_send : ℕ
  pub rx_during_tx : ℕ
  pub terminate_bus : ℕ

-- The fields of `serial_rs485` that the program reads or writes: the bits of the flags by number.
pub record SerialRs485 : Type 0 where
  pub flags : ℕ → Bool
  pub delay_rts_before_send : ℕ
  pub delay_rts_after_send : ℕ

-- A port: its options, and the RS-485 settings of its driver.
pub record SerialPort : Type 0 where
  pub baud_rate : ℕ
  pub character_size : ℕ
  pub parity : Parity
  pub stop_bits : StopBits
  pub flow_control : FlowControl
  pub rs485 : SerialRs485

-- asio and the driver of the port: a parameter.
pub record Driver : Type 0 where
  -- `set_option` for each option: the what() of the exception that it throws on this port, if it does
  pub refuses_baud_rate : SerialPort → ℕ → Option String
  pub refuses_character_size : SerialPort → ℕ → Option String
  pub refuses_parity : SerialPort → Parity → Option String
  pub refuses_stop_bits : SerialPort → StopBits → Option String
  pub refuses_flow_control : SerialPort → FlowControl → Option String
  -- ioctl with TIOCGRS485: the text of the error number, if it fails
  pub refuses_get : SerialPort → Option String
  -- ioctl with TIOCSRS485: the text of the error number, if it fails
  pub refuses_set : SerialPort → SerialRs485 → Option String
  -- the settings that the driver keeps when it takes these, which may differ from them
  pub stores : SerialPort → SerialRs485 → SerialRs485

-- `flags |= flag`
abbrev pub set_bit : ℕ → (ℕ → Bool) → ℕ → Bool
set_bit bit flags i = flags i || i == bit

-- `flags &= ~(flag)`
abbrev pub clear_bit : ℕ → (ℕ → Bool) → ℕ → Bool
clear_bit bit flags i = flags i && not (i == bit)

unfoldable pub set_option : ℕ → Option Bool → (ℕ → Bool) → ℕ → Bool
set_option bit none flags = flags
set_option bit (some true) flags = set_bit bit flags
set_option bit (some false) flags = clear_bit bit flags

abbrev pub value_or : Option ℕ → ℕ → ℕ
value_or none old = old
value_or (some new) old = new

-- What is written back to the driver.
unfoldable pub update_rs485 : Rs485Bits → Rs485 → SerialRs485 → SerialRs485
unfolding set_option
update_rs485 bits options old = record {
  flags = set_option bits.terminate_bus options.terminate_bus (
      set_option bits.rx_during_tx options.rx_during_tx (
        set_option bits.rts_after_send options.rts_after_send
          (set_option bits.rts_on_send options.rts_on_send (set_bit bits.enabled old.flags))));
  delay_rts_before_send = value_or options.delay_rts_before_send old.delay_rts_before_send;
  delay_rts_after_send = value_or options.delay_rts_after_send old.delay_rts_after_send;
}

-- A statement that throws the exception if it is given a text.
abbrev pub unless : Option String → (String → Exception) → Result (Unit {0})
unless none thrown = ok tt
unless (some text) thrown = throws (thrown text)

abbrev get_error : String → Exception
get_error text = runtime_error (String.◌++◌ "get rs485 options error: " text)

abbrev set_error : String → Exception
set_error text = runtime_error (String.◌++◌ "set rs485 options error: " text)

module _ (driver : Driver) (bits : Rs485Bits) where
  -- SetOptions from the test of `options.rs485` on.
  unfoldable pub set_rs485 : Option Rs485 → SerialPort → Result SerialPort
  unfolding update_rs485
  set_rs485 none port = ok port
  set_rs485 (some options) port = do
    unless (driver.refuses_get port) get_error
    let asked = update_rs485 bits options port.rs485
    unless (driver.refuses_set port asked) set_error
    ok (record port { rs485 = driver.stores port asked })

  -- SetOptions
  unfoldable pub set_options : RtuOptions → SerialPort → Result SerialPort
  unfolding set_rs485
  set_options options port = do
    unless (driver.refuses_baud_rate port options.baud_rate) system_error
    let p1 = record port { baud_rate = options.baud_rate }
    unless (driver.refuses_character_size p1 options.character_size) system_error
    let p2 = record p1 { character_size = options.character_size }
    unless (driver.refuses_parity p2 options.parity) system_error
    let p3 = record p2 { parity = options.parity }
    unless (driver.refuses_stop_bits p3 options.stop_bits) system_error
    let p4 = record p3 { stop_bits = options.stop_bits }
    unless (driver.refuses_flow_control p4 options.flow_control) system_error
    set_rs485 options.rs485 (record p4 { flow_control = options.flow_control })
