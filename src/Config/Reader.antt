-- ===== src/Config/Reader.antt =====
-- config/config.cpp and config/config_service.cpp: the whole configuration, and its validation.
pub mod Laws
pub mod RoundTrip
use Prim.Native.String.{String}
use modbus_gateway.Config.Keys
use modbus_gateway.Base.{
  ℕ, suc, Bool, true, false, Option, none, some, List, [], ◌∷◌, length, ltb, if◌then◌else◌,
}
use modbus_gateway.LimitQueue.{size_max}
use modbus_gateway.Modbus.{UnitIds}
use modbus_gateway.Exception.{Result, ok, throws, runtime_error, invalid_value}
use modbus_gateway.Config.ValueType.{object}
use modbus_gateway.Config.Types.{TransportConfig, tcp_client, rtu_master}
use modbus_gateway.Config.TracePath.{push, get_path}
use modbus_gateway.Config.Convertors.{LogLevel, info}
use modbus_gateway.Config.Json.{Json, Asio}
use modbus_gateway.Config.Extract.{Extract, ◌>>=◌, ◌>>◌, pure, trace_deep, throw_invalid_value}
use modbus_gateway.Config.Scalars.{
  find_object, check_type, extract_log_level, extract_unsigned_number_opt,
}
use modbus_gateway.Config.Transports.{extract_slaves, extract_masters, or_default}

pub record ConfigService : Type 0 where
  pub log_level : LogLevel
  pub threads : ℕ

pub record Config (Addr : Type 0) : Type 0 where
  pub config_service : ConfigService
  pub slaves : List (TransportConfig Addr)
  pub masters : List (TransportConfig Addr)

module _ {Value Float : Type 0} (json : Json Value Float) where
  -- The constructor of ConfigService.
  service_value : Value → Extract ConfigService
  service_value data_ = do
    log_level ← extract_log_level json data_
    threads ← extract_unsigned_number_opt json size_max data_ Keys.threads
    pure (record { log_level = or_default info log_level; threads = or_default 1 threads })

  unfoldable pub extract_config_service : Value → Extract ConfigService
  unfolding service_value
  extract_config_service obj = trace_deep Keys.service (do
    res ← find_object json Keys.service obj
    check_type json Keys.service res object
    service_value res)

module _ {Value Float Addr : Type 0} (json : Json Value Float) (asio : Asio Addr)
    (ids : UnitIds) where
  unfoldable pub extract_config : Value → Extract (Config Addr)
  extract_config data_ = do
    config_service ← extract_config_service json data_
    slaves ← extract_slaves json asio ids data_
    masters ← extract_masters json asio ids data_
    pure (record { config_service = config_service; slaves = slaves; masters = masters })

  -- The constructor of Config from the result of json::parse on; `none` is its exception.
  abbrev pub read_parsed : Option Value → Result (Config Addr)
  read_parsed none = throws (runtime_error "parse_error")
  read_parsed (some data_) = (extract_config data_ (push "config" [])).0

  -- The constructor of Config, for the text of the stream.
  unfoldable pub read_config : String → Result (Config Addr)
  unfolding extract_config
  read_config text = read_parsed (json.parse text)

-- A master whose unit id set is empty.
abbrev is_default : {Addr : Type 0} → TransportConfig Addr → Bool
is_default (tcp_client c) = elim c.unit_id_set [ [] ↦ true | _ ∷ _ ↦ false ]
is_default (rtu_master c) = elim c.unit_id_set [ [] ↦ true | _ ∷ _ ↦ false ]
is_default _ = false

-- The loop of Validate: the indexes of the default masters.
default_id_indexes : {Addr : Type 0} → ℕ → List (TransportConfig Addr) → List ℕ
default_id_indexes index [] = []
default_id_indexes index (c ∷ cs) =
    let rest = default_id_indexes (suc index) cs in if is_default c then index ∷ rest else rest

unfoldable pub validate : {Addr : Type 0} → Config Addr → Result (Unit {0})
unfolding default_id_indexes
validate config =
    if ltb 1 (length (default_id_indexes 0 config.masters))
    then (trace_deep Keys.masters
        (throw_invalid_value Keys.masters "more then one master with default unit id")
        (push "config" [])).0
    else ok tt
