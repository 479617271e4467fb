-- ===== src/Config/Rtu/Orderly.antt =====
-- The readers of the serial options leave the path as they found it, and throw
-- only what a reader may throw, with the path to the key.
use modbus_gateway.Base.{ℕ, Option}
use modbus_gateway.Config.Types.{RtuOptions}
use modbus_gateway.Config.Json.{Json, Asio}
use modbus_gateway.Config.Extract.Orderly.{Orderly}
use modbus_gateway.Config.Scalars.Orderly.{scalars}
use modbus_gateway.Config.Rtu.{
  extract_rs485_options, extract_rtu_options, parity_option, stop_bits_option, flow_control_option,
  character_size_option,
}
use Prim.Native.String.{String}

module _ {Value Float : Type 0} (json : Json Value Float) where
  pub extract_rs485_options-Orderly :
      (at : String) (obj : Value) → Orderly at (extract_rs485_options json obj)
  unfolding extract_rs485_options
  extract_rs485_options-Orderly at obj = search scalars depth 20

  parity_option-Orderly :
      (at : String) (options : RtuOptions) (o : Option String)
      → Orderly at (parity_option json options o)
  unfolding parity_option
  parity_option-Orderly at options Option.none = search scalars
  parity_option-Orderly at options (Option.some word) = search scalars depth 9

  stop_bits_option-Orderly :
      (at : String) (options : RtuOptions) (o : Option Float)
      → Orderly at (stop_bits_option json options o)
  unfolding stop_bits_option
  stop_bits_option-Orderly at options Option.none = search scalars
  stop_bits_option-Orderly at options (Option.some value) = search scalars depth 9

  flow_control_option-Orderly :
      (at : String) (options : RtuOptions) (o : Option String)
      → Orderly at (flow_control_option json options o)
  unfolding flow_control_option
  flow_control_option-Orderly at options Option.none = search scalars
  flow_control_option-Orderly at options (Option.some word) = search scalars depth 9

module _ {Value Float Addr : Type 0} (json : Json Value Float) (asio : Asio Addr) where
  character_size_option-Orderly :
      (at : String) (options : RtuOptions) (o : Option ℕ)
      → Orderly at (character_size_option json asio options o)
  unfolding character_size_option
  character_size_option-Orderly at options Option.none = search scalars
  character_size_option-Orderly at options (Option.some n) = search scalars depth 9

  pub extract_rtu_options-Orderly :
      (at : String) (obj : Value) → Orderly at (extract_rtu_options json asio obj)
  unfolding extract_rtu_options
  extract_rtu_options-Orderly at obj =
      search
        (
          scalars, character_size_option-Orderly, parity_option-Orderly, stop_bits_option-Orderly,
          flow_control_option-Orderly, extract_rs485_options-Orderly,
        )
        depth 20
