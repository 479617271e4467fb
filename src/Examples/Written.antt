-- ===== src/Examples/Written.antt =====
-- A configuration that is written and read back, at a concrete one: JSON documents as trees.
use Prim.Native.String.{String}
use modbus_gateway.Base.{
  ℕ, ◌≡◌, refl, ap, Bool, true, false, ◌&&◌, Option, none, some, List, [], ◌∷◌, leb, ◌==◌, arith,
}
use modbus_gateway.Exception.{ok}
use modbus_gateway.Modbus.{rtu, ascii}
use modbus_gateway.Config.ValueType.{JsonType}
use modbus_gateway.Config.Types.{
  tcp_server, rtu_slave, tcp_client, rtu_master, RtuOptions, Parity, StopBits, FlowControl,
}
use modbus_gateway.Config.Convertors.{LogLevel}
use modbus_gateway.Config.Json.{Json, Asio}
use modbus_gateway.Config.Print.{Builder, find_member}
use modbus_gateway.Config.Ranges.Bounds.{IsRange}
use modbus_gateway.Config.Reader.{Config, read_config}
use modbus_gateway.Config.Reader.RoundTrip.{IsEntry, config_document, read_config-config_document}
use modbus_gateway.Examples.Samples.{ids}

-- The members of an object and the elements of an array are a chain; an element has an empty name.
data Tree : Type 0 where
  text : String → Tree
  flag : Bool → Tree
  natural halves : ℕ → Tree
  object array : Tree → Tree
  finish : Tree
  link : String → Tree → Tree → Tree

abbrev fields : Tree → List (String × Tree)
fields (link key t rest) = (key, t) ∷ fields rest
fields _ = []

abbrev elements : Tree → List Tree
elements (link key t rest) = t ∷ elements rest
elements _ = []

abbrev chain : List (String × Tree) → Tree
chain [] = finish
chain ((key, t) ∷ ms) = link key t (chain ms)

abbrev sequence : List Tree → Tree
sequence [] = finish
sequence (t ∷ ts) = link "" t (sequence ts)

fields-chain : (ms : List (String × Tree)) → fields (chain ms) ≡ ms
fields-chain [] = refl
fields-chain ((key, t) ∷ ms) = ap (λ rest. (key, t) ∷ rest) (fields-chain ms)

elements-sequence : (ts : List Tree) → elements (sequence ts) ≡ ts
elements-sequence [] = refl
elements-sequence (t ∷ ts) = ap (λ rest. t ∷ rest) (elements-sequence ts)

abbrev type_of : Tree → JsonType
type_of (text s) = JsonType.string
type_of (flag b) = JsonType.boolean
type_of (natural n) = JsonType.number_unsigned
type_of (halves n) = JsonType.number_float
type_of (array t) = JsonType.array
type_of _ = JsonType.object

abbrev find : String → Tree → Option Tree
find key (object t) = find_member key (fields t)
find key _ = none

abbrev items : Tree → List Tree
items (array t) = elements t
items _ = []

abbrev get_string : Tree → String
get_string (text s) = s
get_string _ = ""

abbrev get_bool : Tree → Bool
get_bool (flag b) = b
get_bool _ = false

abbrev get_number : Tree → ℕ
get_number (natural n) = n
get_number (halves n) = n
get_number _ = 0

abbrev json_with : (String → Option Tree) → Json Tree ℕ
json_with parse = record {
  parse = parse;
  type = type_of;
  find = find;
  items = items;
  get_string = get_string;
  get_bool = get_bool;
  get_uint64 = get_number;
  get_uint32 = get_number;
  get_float = get_number;
  is_halves = λ n k. n == k;
  float_to_string = λ n. "";
}

abbrev builder : (parse : String → Option Tree) → Builder (json_with parse)
builder parse = record {
  object = λ ms. object (chain ms);
  array = λ ts. array (sequence ts);
  text = text;
  flag = flag;
  natural = natural;
  halves = halves;
  type-object = λ ms. refl;
  find-object = λ key ms. ap (find_member key) (fields-chain ms);
  type-array = λ ts. refl;
  items-array = elements-sequence;
  type-text = λ s. refl;
  get_string-text = λ s. refl;
  type-flag = λ b. refl;
  get_bool-flag = λ b. refl;
  type-natural = λ n h. refl;
  get_uint64-natural = λ n h. refl;
  get_uint32-natural = λ n h. refl;
  type-halves = λ n. refl;
  is_halves-halves = λ n k h l. refl;
}

-- Every text is an address.
abbrev asio : Asio String
asio = record {
  make_address = λ s. some s;
  any = "0.0.0.0";
  accepts_character_size = λ n. leb 5 n && leb n 8;
}

abbrev line : RtuOptions
line = record {
  baud_rate = 19200;
  character_size = 7;
  parity = Parity.even;
  stop_bits = StopBits.onepointfive;
  flow_control = FlowControl.hardware;
  rs485 = some (record {
    rts_on_send = some true;
    rts_after_send = some false;
    rx_during_tx = none;
    terminate_bus = none;
    delay_rts_before_send = some 4000000000;
    delay_rts_after_send = none;
  });
}

-- Two slaves, a master for two ranges and a master for the other unit ids.
abbrev config : Config String
config = record {
  config_service = record { log_level = LogLevel.debug; threads = 4 };
  slaves =
      tcp_server (record { address = "0.0.0.0"; port = 502 })
      ∷ rtu_slave (record { device = "/dev/ttyS0"; rtu_options = line; frame_type = ascii })
      ∷ [];
  masters =
      tcp_client (record {
        master = record {
          timeout = 1000;
          unit_id_set = record { begin = 5; end = 5 } ∷ record { begin = 10; end = 20 } ∷ [];
        };
        address = "10.0.0.1";
        port = 65535;
      })
      ∷ rtu_master (record {
        master = record { timeout = 250; unit_id_set = [] };
        device = "/dev/ttyS1";
        rtu_options = record line { rs485 = none };
        frame_type = rtu;
      })
      ∷ [];
}

abbrev parse_nothing : String → Option Tree
parse_nothing s = none

abbrev document : Tree
document =
    config_document (json_with parse_nothing) (builder parse_nothing) asio ids (λ s. s) config

abbrev parse : String → Option Tree
parse s = some document

config-IsEntry : IsEntry (json_with parse) (builder parse) asio ids (λ s. s) config
config-IsEntry = (
  omega arith,
  (λ e. cc),
  (
    (omega arith, omega arith),
    (((λ e. cc), (omega arith, omega arith, refl, (omega arith, tt))), tt),
  ),
  (λ e. cc),
  (
    ((omega arith, (is_five, (is_tens, tt))), (omega arith, omega arith)),
    (((omega arith, tt), (λ e. cc), (omega arith, omega arith, refl, tt)), tt),
  ),
)
  where
    is_five : IsRange ids (record { begin = 5; end = 5 })
    is_five = (omega arith, omega arith, omega arith)

    is_tens : IsRange ids (record { begin = 10; end = 20 })
    is_tens = (omega arith, omega arith, omega arith)

read_config-config_document_example : read_config (json_with parse) asio ids "text" ≡ ok config
read_config-config_document_example =
    read_config-config_document (json_with parse) (builder parse) asio ids (λ s. s) (λ a. refl)
      (omega arith) (omega arith) config "text" config-IsEntry refl
