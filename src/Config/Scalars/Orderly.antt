-- ===== src/Config/Scalars/Orderly.antt =====
-- The readers of single keys leave the path as they found it, and throw
-- only what a reader may throw, with the path to the key.
use Prim.Native.String.{String}
use modbus_gateway.Base.{ℕ}
use modbus_gateway.Modbus.{UnitIds}
use modbus_gateway.Config.ValueType.{ValueType}
use modbus_gateway.Config.Json.{Json, Asio}
use modbus_gateway.Config.Extract.Orderly.{
  Orderly, orderly, Orderly-bind, Orderly-or_else_throw, Orderly-throw_key_not_found,
  Orderly-trace_deep, Orderly-pure,
}
use modbus_gateway.Config.Scalars.{
  find_object, check_type, extract_string, extract_value_opt, extract_string_opt,
  extract_unsigned_number_opt, extract_unsigned_number, extract_log_level, extract_frame_type,
  extract_ip_port, extract_numeric_range_type, extract_modbus_unit_id, extract_ip_address_optional,
  extract_ip_address,
}

module _ {Value Float : Type 0} (json : Json Value Float) where
  pub find_object-Orderly : (key : String) (obj : Value) → Orderly key (find_object json key obj)
  unfolding find_object
  find_object-Orderly key obj = search orderly

  pub check_type-Orderly :
      (key : String) (obj : Value) (type : ValueType) → Orderly key (check_type json key obj type)
  unfolding check_type
  check_type-Orderly key obj type = search orderly

  pub extract_string-Orderly :
      (at : String) (obj : Value) (key : String) → Orderly at (extract_string json obj key)
  unfolding extract_string
  extract_string-Orderly at obj key =
      search (orderly, find_object-Orderly, check_type-Orderly) depth 12

  pub extract_value_opt-Orderly :
      (at : String) {T : Type 0} (get : Value → T) (obj : Value) (key : String) (type : ValueType)
      → Orderly at (extract_value_opt json get obj key type)
  unfolding extract_value_opt
  extract_value_opt-Orderly at get obj key type = search (orderly, check_type-Orderly) depth 12

  pub extract_string_opt-Orderly :
      (at : String) (obj : Value) (key : String) → Orderly at (extract_string_opt json obj key)
  unfolding extract_string_opt
  extract_string_opt-Orderly at obj key = search (orderly, check_type-Orderly) depth 12

  pub extract_unsigned_number_opt-Orderly :
      (at : String) (limit : ℕ) (obj : Value) (key : String)
      → Orderly at (extract_unsigned_number_opt json limit obj key)
  unfolding extract_unsigned_number_opt
  extract_unsigned_number_opt-Orderly at limit obj key =
      search (orderly, check_type-Orderly) depth 12

  pub extract_unsigned_number-Orderly :
      (at : String) (limit : ℕ) (obj : Value) (key : String)
      → Orderly at (extract_unsigned_number json limit obj key)
  unfolding extract_unsigned_number
  extract_unsigned_number-Orderly at limit obj key =
      search (orderly, extract_unsigned_number_opt-Orderly) depth 12

  pub extract_log_level-Orderly :
      (at : String) (obj : Value) → Orderly at (extract_log_level json obj)
  unfolding extract_log_level
  extract_log_level-Orderly at obj = search (orderly, check_type-Orderly) depth 12

  pub extract_frame_type-Orderly :
      (at : String) (obj : Value) → Orderly at (extract_frame_type json obj)
  unfolding extract_frame_type
  extract_frame_type-Orderly at obj =
      search (orderly, find_object-Orderly, check_type-Orderly) depth 12

  pub extract_ip_port-Orderly : (at : String) (obj : Value) → Orderly at (extract_ip_port json obj)
  unfolding extract_ip_port
  extract_ip_port-Orderly at obj =
      search (orderly, find_object-Orderly, check_type-Orderly) depth 12

  pub extract_numeric_range_type-Orderly :
      (at : String) (obj : Value) → Orderly at (extract_numeric_range_type json obj)
  unfolding extract_numeric_range_type
  extract_numeric_range_type-Orderly at obj = search (orderly, extract_string-Orderly) depth 12

  pub extract_modbus_unit_id-Orderly :
      (at : String) (ids : UnitIds) (obj : Value) (key : String)
      → Orderly at (extract_modbus_unit_id json ids obj key)
  unfolding extract_modbus_unit_id
  extract_modbus_unit_id-Orderly at ids obj key =
      search (orderly, extract_unsigned_number-Orderly) depth 12

module _ {Value Float Addr : Type 0} (json : Json Value Float) (asio : Asio Addr) where
  pub extract_ip_address_optional-Orderly :
      (at : String) (obj : Value) → Orderly at (extract_ip_address_optional json asio obj)
  unfolding extract_ip_address_optional
  extract_ip_address_optional-Orderly at obj = search (orderly, check_type-Orderly) depth 12

  pub extract_ip_address-Orderly :
      (at : String) (obj : Value) → Orderly at (extract_ip_address json asio obj)
  unfolding extract_ip_address
  extract_ip_address-Orderly at obj = search (orderly, extract_ip_address_optional-Orderly) depth 12

pub ruleset scalars = (
  orderly, find_object-Orderly, check_type-Orderly, extract_string-Orderly,
  extract_value_opt-Orderly, extract_string_opt-Orderly, extract_unsigned_number_opt-Orderly,
  extract_unsigned_number-Orderly, extract_log_level-Orderly, extract_frame_type-Orderly,
  extract_ip_port-Orderly, extract_numeric_range_type-Orderly, extract_modbus_unit_id-Orderly,
  extract_ip_address_optional-Orderly, extract_ip_address-Orderly,
)
