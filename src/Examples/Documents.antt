-- ===== src/Examples/Documents.antt =====
-- A configuration at a concrete input: a JSON document as a tree whose objects are listed by name.
use Prim.Native.String.{String}
use text.Mathlib.Text.{◌==◌ as str_eq}
use modbus_gateway.Base.{
  ℕ, true, false, Option, none, some, List, [], ◌∷◌, ◌==◌, if◌then◌else◌, ◌≡◌, refl,
}
use modbus_gateway.Exception.{ok}
use modbus_gateway.Config.ValueType
use modbus_gateway.Config.Convertors.{
  warning, convert_log_level, convert_frame_type, convert_numeric_range_type,
}
use modbus_gateway.Config.Json.{Json, Asio}
use modbus_gateway.Config.Types.{tcp_server, tcp_client}
use modbus_gateway.Config.Scalars.{
  find_object, check_type, extract_log_level, extract_unsigned_number_opt, extract_frame_type,
  extract_ip_address_optional, extract_ip_port, extract_ip_address, extract_modbus_unit_id,
  extract_numeric_range_type, extract_string, extract_unsigned_number,
}
use modbus_gateway.Config.Transports.{
  extract_slaves, extract_slave, extract_tcp_server_config, extract_masters, extract_master,
  extract_tcp_client_config, extract_master_config,
}
use modbus_gateway.Config.Ranges.{
  extract_nonempty, extract_unit_id_range, extract_unit_id_range_set, normalize,
}
use modbus_gateway.Config.Reader.{Config, read_config, extract_config, extract_config_service}
use modbus_gateway.Examples.Samples.{ids}

pub data Sample : Type 0 where
  root service slave master unit_range : Sample
  one_of : Sample → Sample
  word : String → Sample
  numeral : ℕ → Sample

abbrev entries : Sample → List (String × Sample)
entries root = ("service", service) ∷ ("slaves", one_of slave) ∷ ("masters", one_of master) ∷ []
entries service = ("log_level", word "warning") ∷ ("threads", numeral 4) ∷ []
entries slave = ("frame_type", word "tcp") ∷ ("ip_port", numeral 502) ∷ []
entries master =
    ("frame_type", word "tcp")
    ∷ ("timeout_ms", numeral 1000)
    ∷ ("ip_address", word "10.0.0.1")
    ∷ ("ip_port", numeral 503)
    ∷ ("unit_id", one_of unit_range)
    ∷ []
entries unit_range = ("type", word "range") ∷ ("begin", numeral 20) ∷ ("end", numeral 10) ∷ []
entries _ = []

abbrev find_entry : String → List (String × Sample) → Option Sample
find_entry key [] = none
find_entry key (e ∷ es) = if str_eq key e.0 then some e.1 else find_entry key es

abbrev type_of : Sample → ValueType.JsonType
type_of (one_of s) = ValueType.JsonType.array
type_of (word s) = ValueType.JsonType.string
type_of (numeral n) = ValueType.JsonType.number_unsigned
type_of _ = ValueType.JsonType.object

abbrev items_of : Sample → List Sample
items_of (one_of s) = s ∷ []
items_of _ = []

abbrev string_of : Sample → String
string_of (word s) = s
string_of _ = ""

abbrev number_of : Sample → ℕ
number_of (numeral n) = n
number_of _ = 0

abbrev pub json : Json Sample ℕ
json = record {
  parse = λ text. if str_eq "" text then none else some root;
  type = type_of;
  find = λ key s. find_entry key (entries s);
  items = items_of;
  get_string = string_of;
  get_bool = λ s. false;
  get_uint64 = number_of;
  get_uint32 = number_of;
  get_float = number_of;
  is_halves = λ n k. n == k;
  float_to_string = λ n. "";
}

-- The addresses are their texts; the empty one is refused, and stands for any.
abbrev pub asio : Asio String
asio = record {
  make_address = λ s. if str_eq "" s then none else some s;
  any = "";
  accepts_character_size = λ n. true;
}

-- What the document says, with the ends of the range in order.
abbrev pub config : Config String
config = record {
  config_service = record { log_level = warning; threads = 4 };
  slaves = tcp_server (record { address = ""; port = 502 }) ∷ [];
  masters =
      tcp_client (record {
        master = record { timeout = 1000; unit_id_set = record { begin = 10; end = 20 } ∷ [] };
        address = "10.0.0.1";
        port = 503;
      })
      ∷ [];
}

pub config_read : read_config json asio ids "text" ≡ ok config
unfolding read_config ValueType.convert_json_type extract_config extract_config_service find_object
    check_type extract_log_level extract_unsigned_number_opt extract_frame_type
    extract_ip_address_optional extract_ip_port extract_ip_address extract_modbus_unit_id
    extract_numeric_range_type extract_string extract_unsigned_number convert_log_level
    convert_frame_type convert_numeric_range_type extract_slaves extract_slave
    extract_tcp_server_config extract_masters extract_master extract_tcp_client_config
    extract_master_config extract_nonempty extract_unit_id_range extract_unit_id_range_set normalize
config_read = refl
