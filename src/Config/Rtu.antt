-- ===== src/Config/Rtu.antt =====
-- ExtractRs485Options and ExtractRtuOptions of config/extractor.cpp.
pub mod Orderly
pub mod BusReads
pub mod Reads
use Prim.Native.String.{String}
use modbus_gateway.Config.Keys
use modbus_gateway.Base.{ℕ, ◌%◌, ◌^◌, Bool, true, false, Option, if◌then◌else◌}
use modbus_gateway.LimitQueue.{size_max}
use modbus_gateway.Exception.{system_error}
use modbus_gateway.Config.ValueType.{object, boolean, number}
use modbus_gateway.Config.Types.{Rs485, RtuOptions, Parity, StopBits, FlowControl}
use modbus_gateway.Config.Convertors.{convert_parity, convert_stop_bits, convert_flow_control}
use modbus_gateway.Config.Json.{Json, Asio}
use modbus_gateway.Config.Extract.{
  Extract, ◌>>=◌, ◌>>◌, pure, when_found, trace_deep, throw_invalid_value, throw, or_else_throw,
}
use modbus_gateway.Config.Scalars.{
  check_type, extract_value_opt, extract_string_opt, extract_unsigned_number_opt,
}

-- The RtuOptions that the default constructors of asio's options make.
abbrev pub default_options : RtuOptions
default_options = record {
  baud_rate = 0;
  character_size = 8;
  parity = Parity.none;
  stop_bits = StopBits.one;
  flow_control = FlowControl.none;
  rs485 = Option.none;
}

-- The conversion of a size_t to asio's `unsigned int`.
abbrev pub unsigned_int : ℕ → ℕ
unsigned_int n = n % 2 ^ 32

module _ {Value Float : Type 0} (json : Json Value Float) where
  abbrev flag : Value → String → Extract (Option Bool)
  flag val key = extract_value_opt json json.get_bool val key boolean

  abbrev delay : Value → String → Extract (Option ℕ)
  delay val key = extract_value_opt json json.get_uint32 val key number

  rs485_value : Value → Extract (Option Rs485)
  rs485_value val = do
    check_type json Keys.rs485 val object
    rts_on_send ← flag val Keys.rts_on_send
    rts_after_send ← flag val Keys.rts_after_send
    rx_during_tx ← flag val Keys.rx_during_tx
    terminate_bus ← flag val Keys.terminate_bus
    delay_rts_before_send ← delay val Keys.delay_rts_before_send
    delay_rts_after_send ← delay val Keys.delay_rts_after_send
    pure (
        Option.some (record {
          rts_on_send = rts_on_send;
          rts_after_send = rts_after_send;
          rx_during_tx = rx_during_tx;
          terminate_bus = terminate_bus;
          delay_rts_before_send = delay_rts_before_send;
          delay_rts_after_send = delay_rts_after_send;
        }))

  unfoldable pub extract_rs485_options : Value → Extract (Option Rs485)
  unfolding rs485_value
  extract_rs485_options obj =
      trace_deep Keys.rs485 (when_found rs485_value (json.find Keys.rs485 obj))

  -- `if (opt.has_value()) { … }` for an option that a convertor reads: `none` leaves the options.
  parity_option : RtuOptions → Option String → Extract RtuOptions
  unfolding convert_parity
  parity_option options Option.none = pure options
  parity_option options (Option.some word) = do
    parity ←
        or_else_throw (trace_deep Keys.parity (throw_invalid_value Keys.parity word))
          (convert_parity word)
    pure (record options { parity = parity })

  stop_bits_option : RtuOptions → Option Float → Extract RtuOptions
  unfolding convert_stop_bits
  stop_bits_option options Option.none = pure options
  stop_bits_option options (Option.some value) = do
    stop_bits ←
        or_else_throw
          (trace_deep Keys.stop_bits
            (throw_invalid_value Keys.stop_bits (json.float_to_string value)))
          (convert_stop_bits (json.is_halves value))
    pure (record options { stop_bits = stop_bits })

  flow_control_option : RtuOptions → Option String → Extract RtuOptions
  unfolding convert_flow_control
  flow_control_option options Option.none = pure options
  flow_control_option options (Option.some word) = do
    flow_control ←
        or_else_throw (trace_deep Keys.flow_control (throw_invalid_value Keys.flow_control word))
          (convert_flow_control word)
    pure (record options { flow_control = flow_control })

  baud_rate_option : RtuOptions → Option ℕ → RtuOptions
  baud_rate_option options Option.none = options
  baud_rate_option options (Option.some n) = record options { baud_rate = unsigned_int n }

module _ {Value Float Addr : Type 0} (json : Json Value Float) (asio : Asio Addr) where
  -- The constructor of asio's character_size refuses some numbers.
  character_size_option : RtuOptions → Option ℕ → Extract RtuOptions
  character_size_option options Option.none = pure options
  character_size_option options (Option.some n) =
      if asio.accepts_character_size (unsigned_int n)
      then pure (record options { character_size = unsigned_int n })
      else throw (system_error "character_size")

  unfoldable pub extract_rtu_options : Value → Extract RtuOptions
  unfolding character_size_option baud_rate_option parity_option stop_bits_option
      flow_control_option
  extract_rtu_options obj = do
    baud_rate ← extract_unsigned_number_opt json size_max obj Keys.baud_rate
    let with_baud_rate = baud_rate_option json default_options baud_rate
    character_size ← extract_unsigned_number_opt json size_max obj Keys.character_size
    with_character_size ← character_size_option with_baud_rate character_size
    parity ← extract_string_opt json obj Keys.parity
    with_parity ← parity_option json with_character_size parity
    stop_bits ← extract_value_opt json json.get_float obj Keys.stop_bits number
    with_stop_bits ← stop_bits_option json with_parity stop_bits
    flow_control ← extract_string_opt json obj Keys.flow_control
    with_flow_control ← flow_control_option json with_stop_bits flow_control
    rs485 ← extract_rs485_options json obj
    pure (record with_flow_control { rs485 = rs485 })
