-- ===== src/Config/Scalars.antt =====
-- config/extractor.cpp and config/extractor.h: the values of single keys.
pub mod Bounds
pub mod Paths
pub mod Reads
pub mod Words
pub mod Orderly
use Prim.Native.String.{String}
use modbus_gateway.Config.Keys
use modbus_gateway.Base.{
  ℕ, ◌+◌, ◌-◌, ◌^◌, ◌<◌, Bool, true, false, not, ◌||◌, Option, none, some, ltb, ◌==◌, if◌then◌else◌,
}
use modbus_gateway.Decimal.{to_string}
use modbus_gateway.Modbus.{FrameType, UnitIds}
use modbus_gateway.Config.ValueType.{
  ValueType, convert_json_type, unknown, object, array, string, boolean, number,
}
use modbus_gateway.Config.Convertors.{
  LogLevel, NumericRangeType, convert_log_level, convert_frame_type, convert_numeric_range_type,
}
use modbus_gateway.Config.Json.{Json, Asio}
use modbus_gateway.Config.Extract.{
  Extract, ◌>>=◌, ◌>>◌, pure, when_found, trace_deep, throw_key_not_found, throw_invalid_type,
  throw_invalid_value, or_else_throw,
}

-- The enumerators of ValueType are compared by `!=`.
abbrev same_type : ValueType → ValueType → Bool
same_type unknown unknown = true
same_type object object = true
same_type array array = true
same_type string string = true
same_type boolean boolean = true
same_type number number = true
same_type _ _ = false

module _ {Value Float : Type 0} (json : Json Value Float) where
  -- FindObject, with `key` the key of the TraceDeep.
  unfoldable pub find_object : String → Value → Extract Value
  find_object key obj = or_else_throw (throw_key_not_found key) (json.find key obj)

  unfoldable pub check_type : String → Value → ValueType → Extract (Unit {0})
  unfolding convert_json_type
  check_type key obj expect =
      let actual = convert_json_type (json.type obj) in
      if same_type actual expect then pure tt else throw_invalid_type key expect actual

  unfoldable pub extract_string : Value → String → Extract String
  extract_string obj key =
      trace_deep key
        (do res ← find_object key obj; check_type key res string; pure (json.get_string res))

  -- The body of ExtractValueOpt after the key is found: the type check and `get`.
  typed_value : {T : Type 0} → String → Value → ValueType → (Value → T) → Extract (Option T)
  typed_value key val type get = do check_type key val type; pure (some (get val))

  -- ExtractValueOpt<T>, for the `get<T>` that is given.
  unfoldable pub extract_value_opt :
      {T : Type 0} → (Value → T) → Value → String → ValueType → Extract (Option T)
  unfolding typed_value
  extract_value_opt get obj key type =
      trace_deep key (when_found (λ val. typed_value key val type get) (json.find key obj))

  unfoldable pub extract_string_opt : Value → String → Extract (Option String)
  unfolding typed_value
  extract_string_opt obj key =
      trace_deep key
        (when_found (λ val. typed_value key val string json.get_string) (json.find key obj))

  -- ExtractUnsignedNumberOpt<T>, for an unsigned type with the largest value `limit`.
  unsigned_value : ℕ → String → Value → Extract (Option ℕ)
  unsigned_value limit key val = do
    check_type key val number
    if ltb limit (json.get_uint64 val)
        then throw_invalid_value key (to_string (json.get_uint64 val))
        else pure (some (json.get_uint64 val))

  unfoldable pub extract_unsigned_number_opt : ℕ → Value → String → Extract (Option ℕ)
  unfolding unsigned_value
  extract_unsigned_number_opt limit obj key =
      trace_deep key (when_found (unsigned_value limit key) (json.find key obj))

  unfoldable pub extract_unsigned_number : ℕ → Value → String → Extract ℕ
  extract_unsigned_number limit obj key = do
    result ← extract_unsigned_number_opt limit obj key
    or_else_throw (trace_deep key (throw_key_not_found key)) result

  -- A word that a convertor knows, or InvalidValueException.
  converted : {T : Type 0} → String → (String → Option T) → String → Extract T
  converted key convert word = or_else_throw (throw_invalid_value key word) (convert word)

  log_level_value : Value → Extract (Option LogLevel)
  unfolding converted
  log_level_value val = do
    check_type Keys.log_level val string
    level ← converted Keys.log_level convert_log_level (json.get_string val)
    pure (some level)

  unfoldable pub extract_log_level : Value → Extract (Option LogLevel)
  unfolding log_level_value
  extract_log_level obj =
      trace_deep Keys.log_level (when_found log_level_value (json.find Keys.log_level obj))

  unfoldable pub extract_frame_type : Value → Extract FrameType
  unfolding converted
  extract_frame_type obj = trace_deep Keys.frame_type (do
    val ← find_object Keys.frame_type obj
    check_type Keys.frame_type val string
    converted Keys.frame_type convert_frame_type (json.get_string val))

  -- std::numeric_limits<asio::ip::port_type>::max()
  abbrev pub port_max : ℕ
  port_max = 2 ^ 16 - 1

  unfoldable pub extract_ip_port : Value → Extract ℕ
  extract_ip_port obj = trace_deep Keys.ip_port (do
    val ← find_object Keys.ip_port obj
    check_type Keys.ip_port val number
    if json.get_uint64 val == 0 || ltb port_max (json.get_uint64 val)
        then throw_invalid_value Keys.ip_port (to_string (json.get_uint64 val))
        else pure (json.get_uint64 val))

  -- The key is pushed a second time by ExtractString.
  unfoldable pub extract_numeric_range_type : Value → Extract NumericRangeType
  unfolding converted
  extract_numeric_range_type obj = trace_deep Keys.numeric_range_type (do
    value ← extract_string obj Keys.numeric_range_type
    converted Keys.numeric_range_type convert_numeric_range_type value)

  -- `limit` is the largest value of modbus::UnitId.
  unfoldable pub extract_modbus_unit_id : UnitIds → Value → String → Extract ℕ
  extract_modbus_unit_id ids obj key = do
    unit_id ← extract_unsigned_number ids.limit obj key
    if ltb unit_id ids.min || ltb ids.max unit_id
        then trace_deep key (throw_invalid_value key (to_string unit_id))
        else pure unit_id

module _ {Value Float Addr : Type 0} (json : Json Value Float) (asio : Asio Addr) where
  address_value : Value → Extract (Option Addr)
  address_value val = do
    check_type json Keys.ip_address val string
    address ←
        or_else_throw (throw_invalid_value Keys.ip_address (json.get_string val))
          (asio.make_address (json.get_string val))
    pure (some address)

  unfoldable pub extract_ip_address_optional : Value → Extract (Option Addr)
  unfolding address_value
  extract_ip_address_optional obj =
      trace_deep Keys.ip_address (when_found address_value (json.find Keys.ip_address obj))

  unfoldable pub extract_ip_address : Value → Extract Addr
  extract_ip_address obj = do
    res ← extract_ip_address_optional obj
    or_else_throw (trace_deep Keys.ip_address (throw_key_not_found Keys.ip_address)) res
