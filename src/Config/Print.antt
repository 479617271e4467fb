-- ===== src/Config/Print.antt =====
-- A configuration as a JSON document, as the README describes the file: the reference for the readers.
use Prim.Native.String.{String}
use text.Mathlib.Text.{◌==◌ as str_eq}
use modbus_gateway.Base.{
  ℕ, ◌^◌, ◌<◌, ◌≡◌, refl, ◌∙◌, Bool, Option, none, some, List, [], ◌∷◌, map, ◌==◌, if◌then◌else◌,
  Bool-cases, inl, inr,
}
use modbus_gateway.Modbus.{FrameType, tcp, rtu, ascii}
use modbus_gateway.Config.ValueType.{JsonType}
use modbus_gateway.Config.Types.{
  Parity, StopBits, FlowControl, Rs485, RtuOptions, UnitIdRange, MasterConfig, TransportConfig,
  tcp_server, rtu_slave, tcp_client, rtu_master,
}
use modbus_gateway.Config.Convertors.{LogLevel}
use modbus_gateway.Config.Json.{Json}

abbrev pub find_member : {Value : Type 0} → String → List (String × Value) → Option Value
find_member key [] = none
find_member key (m ∷ ms) = if str_eq key m.0 then some m.1 else find_member key ms

-- How documents are made, with the documented behaviour of the JSON library on them: a number is
-- read as it was written if the type that is asked for holds it.
pub record Builder {Value Float : Type 0} (json : Json Value Float) : Type 0 where
  pub object : List (String × Value) → Value
  pub array : List Value → Value
  pub text : String → Value
  pub flag : Bool → Value
  pub natural : ℕ → Value
  -- the number n / 2
  pub halves : ℕ → Value
  pub type-object : (ms : List (String × Value)) → json.type (object ms) ≡ JsonType.object
  pub find-object :
      (key : String) (ms : List (String × Value)) → json.find key (object ms) ≡ find_member key ms
  pub type-array : (vs : List Value) → json.type (array vs) ≡ JsonType.array
  pub items-array : (vs : List Value) → json.items (array vs) ≡ vs
  pub type-text : (s : String) → json.type (text s) ≡ JsonType.string
  pub get_string-text : (s : String) → json.get_string (text s) ≡ s
  pub type-flag : (b : Bool) → json.type (flag b) ≡ JsonType.boolean
  pub get_bool-flag : (b : Bool) → json.get_bool (flag b) ≡ b
  pub type-natural : (n : ℕ) → n < 2 ^ 64 → json.type (natural n) ≡ JsonType.number_unsigned
  pub get_uint64-natural : (n : ℕ) → n < 2 ^ 64 → json.get_uint64 (natural n) ≡ n
  pub get_uint32-natural : (n : ℕ) → n < 2 ^ 32 → json.get_uint32 (natural n) ≡ n
  pub type-halves : (n : ℕ) → json.type (halves n) ≡ JsonType.number_float
  -- below 2 ^ 24 a float is exact
  pub is_halves-halves :
      (n k : ℕ) → n < 2 ^ 24 → k < 2 ^ 24 → json.is_halves (json.get_float (halves n)) k ≡ (n == k)

abbrev pub level_word : LogLevel → String
level_word LogLevel.trace = "trace"
level_word LogLevel.debug = "debug"
level_word LogLevel.info = "info"
level_word LogLevel.warning = "warning"
level_word LogLevel.error = "error"
level_word LogLevel.critical = "critical"

abbrev pub frame_word : FrameType → String
frame_word tcp = "tcp"
frame_word rtu = "rtu"
frame_word ascii = "ascii"

abbrev pub parity_word : Parity → String
parity_word Parity.none = "none"
parity_word Parity.odd = "odd"
parity_word Parity.even = "even"

-- Twice the number.
abbrev pub stop_bits_halves : StopBits → ℕ
stop_bits_halves StopBits.one = 2
stop_bits_halves StopBits.onepointfive = 3
stop_bits_halves StopBits.two = 4

abbrev pub flow_control_word : FlowControl → String
flow_control_word FlowControl.none = "none"
flow_control_word FlowControl.software = "software"
flow_control_word FlowControl.hardware = "hardware"

abbrev pub option_map {ℓ κ} : {A : Type ℓ} {B : Type κ} → (A → B) → Option A → Option B
option_map f none = none
option_map f (some a) = some (f a)

-- The members that are there.
abbrev pub present : {Value : Type 0} → List (String × Option Value) → List (String × Value)
present [] = []
present ((key, none) ∷ ms) = present ms
present ((key, some v) ∷ ms) = (key, v) ∷ present ms

abbrev pub or_else : {Value : Type 0} → Option Value → Option Value → Option Value
or_else none o = o
or_else (some v) o = some v

abbrev pub lookup : {Value : Type 0} → String → List (String × Option Value) → Option Value
lookup key [] = none
lookup key (m ∷ ms) = if str_eq key m.0 then or_else m.1 (lookup key ms) else lookup key ms

pub find_member-present :
    {Value : Type 0} (key : String) (ms : List (String × Option Value))
    → find_member key (present ms) ≡ lookup key ms
find_member-present key [] = refl
find_member-present key ((k, none) ∷ ms) = elim (Bool-cases (str_eq key k)) [
  | inl e ↦ rw e (find_member-present key ms)
  | inr e ↦ rw e (find_member-present key ms)
]
find_member-present key ((k, some v) ∷ ms) = elim (Bool-cases (str_eq key k)) [
  | inl e ↦ rw e refl
  | inr e ↦ rw e (find_member-present key ms)
]

module _ {Value Float : Type 0} (json : Json Value Float) (builder : Builder json) where
  abbrev pub members : List (String × Option Value) → Value
  members ms = builder.object (present ms)

  find-members :
      (key : String) (ms : List (String × Option Value))
      → json.find key (members ms) ≡ lookup key ms
  find-members key ms = builder.find-object key (present ms) ∙ find_member-present key ms

  or_else-none : (o : Option Value) → or_else o none ≡ o
  or_else-none none = refl
  or_else-none (some v) = refl

  -- A key that is among the members once.
  pub find-once :
      (key : String) (ms : List (String × Option Value)) (o : Option Value)
      → lookup key ms ≡ or_else o none
      → json.find key (members ms) ≡ o
  find-once key ms o e = find-members key ms ∙ e ∙ or_else-none o

  abbrev pub word : String → Option Value
  word s = some (builder.text s)

  abbrev pub number : ℕ → Option Value
  number n = some (builder.natural n)

  abbrev pub rs485_members : Rs485 → List (String × Option Value)
  rs485_members r =
      ("rts_on_send", option_map builder.flag r.rts_on_send)
      ∷ ("rts_after_send", option_map builder.flag r.rts_after_send)
      ∷ ("rx_during_tx", option_map builder.flag r.rx_during_tx)
      ∷ ("terminate_bus", option_map builder.flag r.terminate_bus)
      ∷ ("delay_rts_before_send", option_map builder.natural r.delay_rts_before_send)
      ∷ ("delay_rts_after_send", option_map builder.natural r.delay_rts_after_send)
      ∷ []

  abbrev pub rs485_document : Rs485 → Value
  rs485_document r = members (rs485_members r)

  -- The members of a serial line, behind others.
  abbrev pub line_members :
      String → RtuOptions → List (String × Option Value) → List (String × Option Value)
  line_members device o ms =
      ("device", word device)
      ∷ ("baud_rate", number o.baud_rate)
      ∷ ("character_size", number o.character_size)
      ∷ ("parity", word (parity_word o.parity))
      ∷ ("stop_bits", some (builder.halves (stop_bits_halves o.stop_bits)))
      ∷ ("flow_control", word (flow_control_word o.flow_control))
      ∷ ("rs485", option_map rs485_document o.rs485)
      ∷ ms

  -- A single unit id is a value, any other range a range.
  abbrev pub range_document : UnitIdRange → Value
  range_document r =
      if r.begin == r.end
      then members (("type", word "value") ∷ ("value", number r.begin) ∷ [])
      else members (("type", word "range") ∷ ("begin", number r.begin) ∷ ("end", number r.end) ∷ [])

  -- A default master has no unit ids.
  abbrev pub unit_ids : List UnitIdRange → Option Value
  unit_ids [] = none
  unit_ids (r ∷ rs) = some (builder.array (map range_document (r ∷ rs)))

  abbrev pub master_members :
      MasterConfig → List (String × Option Value) → List (String × Option Value)
  master_members m ms = ("timeout_ms", number m.timeout) ∷ ("unit_id", unit_ids m.unit_id_set) ∷ ms

module _ {Value Float Addr : Type 0} (json : Json Value Float) (builder : Builder json)
    (show : Addr → String) where
  abbrev pub transport_members : TransportConfig Addr → List (String × Option Value)
  transport_members (tcp_server c) =
      ("frame_type", word json builder "tcp")
      ∷ ("ip_address", word json builder (show c.address))
      ∷ ("ip_port", number json builder c.port)
      ∷ []
  transport_members (rtu_slave c) =
      ("frame_type", word json builder (frame_word c.frame_type))
      ∷ line_members json builder c.device c.rtu_options []
  transport_members (tcp_client c) =
      ("frame_type", word json builder "tcp")
      ∷ master_members json builder c.master (
          ("ip_address", word json builder (show c.address))
          ∷ ("ip_port", number json builder c.port)
          ∷ [])
  transport_members (rtu_master c) =
      ("frame_type", word json builder (frame_word c.frame_type))
      ∷ master_members json builder c.master (line_members json builder c.device c.rtu_options [])

  abbrev pub transport_document : TransportConfig Addr → Value
  transport_document c = members json builder (transport_members c)
