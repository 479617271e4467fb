-- ===== src/Config/Reader/Laws.antt =====
-- What holds of a configuration that was read, and when Validate accepts it.
use Prim.Native.String.{String}
use modbus_gateway.Base.{
  ℕ, suc, ◌≤◌, ◌≡◌, ◌↔◌, refl, ap, Bool, true, false, Option, none, some, List, [], ◌∷◌, length,
  ltb, Bool-cases, Option-cases, sym, ◌∙◌, inl, inr, if◌then◌else◌, arith,
}
use modbus_gateway.Modbus.{UnitIds}
use modbus_gateway.Exception.{ok, throws, runtime_error}
use modbus_gateway.Config.Types.{
  TransportConfig, tcp_client, rtu_master, tcp_server, rtu_slave, UnitIdRange,
}
use modbus_gateway.Config.TracePath.{push}
use modbus_gateway.Config.Json.{Json, Asio}
use modbus_gateway.Config.Extract.Orderly.{Orderly, IsDiagnosed}
use modbus_gateway.Config.Extract.Ensures.{Ensures, Ensures-pure, Ensures-bind, Ensures-any}
use modbus_gateway.Config.Scalars.Orderly.{scalars}
use modbus_gateway.Config.Transports.Orderly.{extract_slaves-Orderly, extract_masters-Orderly}
use modbus_gateway.Config.Transports.Kinds.{
  AreSlaves, AreMasters, extract_slaves-Ensures, extract_masters-Ensures,
}
use modbus_gateway.Config.Reader.{
  Config, service_value, extract_config_service, extract_config, read_config, read_parsed,
  is_default, default_id_indexes, validate,
}

module _ {Value Float : Type 0} (json : Json Value Float) where
  service_value-Orderly : (at : String) (obj : Value) → Orderly at (service_value json obj)
  unfolding service_value
  service_value-Orderly at obj = search scalars depth 9

  extract_config_service-Orderly :
      (at : String) (obj : Value) → Orderly at (extract_config_service json obj)
  unfolding extract_config_service
  extract_config_service-Orderly at obj = search (scalars, service_value-Orderly) depth 12

-- A configuration has slaves and masters of the right kinds, with ports and unit ids in range.
abbrev pub IsUsable : {Addr : Type 0} → UnitIds → Config Addr → Type 0
IsUsable ids config = AreSlaves config.slaves × AreMasters ids config.masters

module _ {Value Float Addr : Type 0} (json : Json Value Float) (asio : Asio Addr)
    (ids : UnitIds) where
  -- Reading a configuration from a JSON value, below any key, returns a configuration, or throws: an
  -- exception of asio, or one of the parser, whose path goes on from the path where the reading began
  -- and ends with the key that the exception names. The path is as it was before, also when it throws.
  pub extract_config-Orderly :
      (at : String) (data_ : Value) → Orderly at (extract_config json asio ids data_)
  unfolding extract_config
  extract_config-Orderly at data_ =
      search
        (scalars, extract_config_service-Orderly, extract_slaves-Orderly, extract_masters-Orderly)
        depth 12

  extract_config-Ensures :
      (data_ : Value) → Ensures (IsUsable ids) (extract_config json asio ids data_)
  unfolding extract_config
  extract_config-Ensures data_ =
      Ensures-bind (IsUsable ids) (λ _. Unit {0}) _ _
        (Ensures-any (extract_config_service json data_))
        (λ service _.
          Ensures-bind (IsUsable ids) AreSlaves _ _ (extract_slaves-Ensures json asio ids data_)
            (λ slaves p.
              Ensures-bind (IsUsable ids) (AreMasters ids) _ _
                (extract_masters-Ensures json asio ids data_)
                (λ masters q. Ensures-pure (IsUsable ids) _ (p, q))))

  pub read_config_unparsed :
      (text : String)
      → json.parse text ≡ none
      → read_config json asio ids text ≡ throws (runtime_error "parse_error")
  unfolding read_config
  read_config_unparsed text e = ap (read_parsed json asio ids) e

  pub read_config_parsed :
      (text : String) (data_ : Value)
      → json.parse text ≡ some data_
      → read_config json asio ids text ≡ (extract_config json asio ids data_ (push "config" [])).0
  unfolding read_config
  read_config_parsed text data_ e = ap (read_parsed json asio ids) e

  -- A configuration that is read without an exception has at least one slave and one master. The
  -- slaves are TCP servers and RTU slaves, the masters are TCP clients and RTU masters, the ports lie
  -- between 1 and 65535, and every range of unit ids lies within the unit ids and is not reversed.
  pub read_config-IsUsable :
      (text : String) (config : Config Addr)
      → read_config json asio ids text ≡ ok config
      → IsUsable ids config
  read_config-IsUsable text config h = elim (Option-cases (json.parse text)) [
    | inl e ↦ absurd (cc (h, read_config_unparsed text e))
    | inr (data_, e) ↦
        (extract_config-Ensures data_).holds (push "config" []) config
          (sym (read_config_parsed text data_ e) ∙ h)
  ]

-- The unit ids that a master of either kind claims.
abbrev pub unit_ids_of : {Addr : Type 0} → TransportConfig Addr → Option (List UnitIdRange)
unit_ids_of (tcp_client c) = some c.unit_id_set
unit_ids_of (rtu_master c) = some c.unit_id_set
unit_ids_of (tcp_server c) = none
unit_ids_of (rtu_slave c) = none

-- A master of either kind without unit ids.
abbrev pub lacks_unit_ids : Option (List UnitIdRange) → Bool
lacks_unit_ids (some []) = true
lacks_unit_ids (some (_ ∷ _)) = false
lacks_unit_ids none = false

no_ranges :
    (rs : List UnitIdRange) → (elim rs [ [] ↦ true | _ ∷ _ ↦ false ]) ≡ lacks_unit_ids (some rs)
no_ranges [] = refl
no_ranges (r ∷ rs) = refl

is_default_lem :
    {Addr : Type 0} (c : TransportConfig Addr) → is_default c ≡ lacks_unit_ids (unit_ids_of c)
is_default_lem (tcp_client c) = no_ranges c.unit_id_set
is_default_lem (rtu_master c) = no_ranges c.unit_id_set
is_default_lem (tcp_server c) = refl
is_default_lem (rtu_slave c) = refl

-- How many masters of the list, of either kind, have no unit ids.
abbrev pub count_defaults : {Addr : Type 0} → List (TransportConfig Addr) → ℕ
count_defaults [] = 0
count_defaults (c ∷ cs) =
    if lacks_unit_ids (unit_ids_of c) then suc (count_defaults cs) else count_defaults cs

length-default_id_indexes :
    {Addr : Type 0} (index : ℕ) (cs : List (TransportConfig Addr))
    → length (default_id_indexes index cs) ≡ count_defaults cs
unfolding default_id_indexes
length-default_id_indexes index [] = refl
length-default_id_indexes index (c ∷ cs) = elim (Bool-cases (is_default c)) [
  | inl e ↦ rw (e, sym (is_default_lem c) ∙ e) (ap suc (length-default_id_indexes (suc index) cs))
  | inr e ↦ rw (e, sym (is_default_lem c) ∙ e) (length-default_id_indexes (suc index) cs)
]

pub validate-IsDiagnosed : {Addr : Type 0} (config : Config Addr) → IsDiagnosed (validate config)
unfolding validate
validate-IsDiagnosed config =
    elim (Bool-cases (ltb 1 (length (default_id_indexes 0 config.masters)))) [
      | inl e ↦ rw e tt
      | inr e ↦ rw e tt
    ]

-- Validate accepts a configuration exactly if at most one of its masters, TCP clients and RTU masters
-- alike, has no unit ids.
pub validate_iff :
    {Addr : Type 0} (config : Config Addr)
    → (validate config ≡ ok tt) ↔ (count_defaults config.masters ≤ 1)
unfolding validate
validate_iff config = ground (arith, length-default_id_indexes 0 config.masters)
