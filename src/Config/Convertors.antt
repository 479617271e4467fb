-- ===== src/Config/Convertors.antt =====
-- config/convertors.cpp: the words of the configuration.
use Prim.Native.String.{String}
use text.Mathlib.Text.{◌==◌ as str_eq}
use modbus_gateway.Base.{ℕ, Bool, Option, some, if◌then◌else◌}
use modbus_gateway.Modbus.{FrameType}
use modbus_gateway.Config.Types.{Parity, StopBits, FlowControl}

-- common/include/common/fmt_logger.h
pub data LogLevel : Type 0 where
  trace debug info warning error critical : LogLevel

-- config/include/config/config_types.h
pub data NumericRangeType : Type 0 where
  range value : NumericRangeType

unfoldable pub convert_log_level : String → Option LogLevel
convert_log_level s =
    if str_eq "trace" s
    then some LogLevel.trace
    else if str_eq "debug" s
    then some LogLevel.debug
    else if str_eq "info" s
    then some LogLevel.info
    else if str_eq "warning" s
    then some LogLevel.warning
    else if str_eq "error" s
    then some LogLevel.error
    else if str_eq "critical" s
    then some LogLevel.critical
    else Option.none

unfoldable pub convert_frame_type : String → Option FrameType
convert_frame_type s =
    if str_eq "tcp" s
    then some FrameType.tcp
    else if str_eq "rtu" s
    then some FrameType.rtu
    else if str_eq "ascii" s
    then some FrameType.ascii
    else Option.none

unfoldable pub convert_parity : String → Option Parity
convert_parity s =
    if str_eq "none" s
    then some Parity.none
    else if str_eq "odd" s
    then some Parity.odd
    else if str_eq "even" s
    then some Parity.even
    else Option.none

-- The floating-point tests `1 == stopBits`, `1.5 == stopBits` and `2 == stopBits`: `is_halves n`
-- tells whether the value equals n / 2.
unfoldable pub convert_stop_bits : (ℕ → Bool) → Option StopBits
convert_stop_bits is_halves =
    if is_halves 2
    then some StopBits.one
    else if is_halves 3
    then some StopBits.onepointfive
    else if is_halves 4
    then some StopBits.two
    else Option.none

unfoldable pub convert_flow_control : String → Option FlowControl
convert_flow_control s =
    if str_eq "none" s
    then some FlowControl.none
    else if str_eq "software" s
    then some FlowControl.software
    else if str_eq "hardware" s
    then some FlowControl.hardware
    else Option.none

unfoldable pub convert_numeric_range_type : String → Option NumericRangeType
convert_numeric_range_type s =
    if str_eq "range" s
    then some NumericRangeType.range
    else if str_eq "value" s
    then some NumericRangeType.value
    else Option.none
