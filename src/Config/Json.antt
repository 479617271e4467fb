-- ===== src/Config/Json.antt =====
-- The JSON library (contrib/json, a submodule) and asio's addresses and serial options, as the
-- configuration calls them: parameters.
use Prim.Native.String.{String}
use modbus_gateway.Base.{ℕ, Bool, Option, List}
use modbus_gateway.Config.ValueType.{JsonType}

pub record Json (Value Float : Type 0) : Type 0 where
  -- `none` is an exception of json::parse
  pub parse : String → Option Value
  pub type : Value → JsonType
  -- find(key); `none` is end()
  pub find : String → Value → Option Value
  -- the elements of an array, in order; empty() is whether there are any
  pub items : Value → List Value
  pub get_string : Value → String
  pub get_bool : Value → Bool
  pub get_uint64 : Value → ℕ
  pub get_uint32 : Value → ℕ
  pub get_float : Value → Float
  -- whether the value equals n / 2, and std::to_string of it
  pub is_halves : Float → ℕ → Bool
  pub float_to_string : Float → String

pub record Asio (Addr : Type 0) : Type 0 where
  -- make_address_v4; `none` is an error code
  pub make_address : String → Option Addr
  -- address_v4::any()
  pub any : Addr
  -- whether serial_port_base::character_size accepts the number
  pub accepts_character_size : ℕ → Bool
