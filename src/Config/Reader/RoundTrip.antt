-- ===== src/Config/Reader/RoundTrip.antt =====
-- A configuration that is written as a document is read back.
use Prim.Native.String.{String}
use modbus_gateway.Base.{
  ◌^◌, ◌≤◌, ◌<◌, ◌≡◌, ◌≢◌, refl, ap, ◌∙◌, Option, none, some, List, [], ◌∷◌, map, All, arith,
}
use modbus_gateway.LimitQueue.{size_max}
use modbus_gateway.Exception.{ok}
use modbus_gateway.Modbus.{UnitIds}
use modbus_gateway.Config.Keys
use modbus_gateway.Config.ValueType.{JsonType, convert_json_type, object, array}
use modbus_gateway.Config.Types.{TransportConfig}
use modbus_gateway.Config.TracePath.{push}
use modbus_gateway.Config.Json.{Json, Asio}
use modbus_gateway.Config.Extract.{Extract, ◌>>=◌, ◌>>◌, trace_deep}
use modbus_gateway.Config.Extract.Reads.{Reads, Reads-pure, Reads-trace_deep, Reads-bind}
use modbus_gateway.Config.Print.{
  Builder, word, number, members, lookup, or_else, find-once, level_word, transport_document,
}
use modbus_gateway.Config.Scalars.{find_object, check_type}
use modbus_gateway.Config.Scalars.Reads.{
  find_object-Reads, check_type-Reads, extract_unsigned_number_opt-Reads,
}
use modbus_gateway.Config.Scalars.Words.{extract_log_level-Reads}
use modbus_gateway.Config.Ranges.{extract_nonempty}
use modbus_gateway.Config.Ranges.Reads.{extract_nonempty-Reads}
use modbus_gateway.Config.Transports.{
  extract_slave, extract_slaves, extract_master, extract_masters,
}
use modbus_gateway.Config.Transports.Reads.{
  IsSlaveEntry, IsMasterTransport, extract_slave-Reads, extract_master-Reads,
}
use modbus_gateway.Config.Reader.{
  ConfigService, Config, service_value, extract_config_service, extract_config, read_parsed,
  read_config,
}

module _ {Value Float : Type 0} (json : Json Value Float) (builder : Builder json) where
  abbrev service_members : ConfigService → List (String × Option Value)
  service_members s =
      ("log_level", word json builder (level_word s.log_level))
      ∷ ("threads", number json builder s.threads)
      ∷ []

  abbrev pub service_document : ConfigService → Value
  service_document s = members json builder (service_members s)

  extract_config_service-Reads :
      (obj : Value) (s : ConfigService)
      → json.find Keys.service obj ≡ some (service_document s)
      → s.threads ≤ size_max
      → Reads (extract_config_service json obj) s
  unfolding extract_config_service service_value convert_json_type
  extract_config_service-Reads obj s f h =
      let v = service_document s in
      let ms = service_members s in
      Reads-trace_deep Keys.service _ s (
        Reads-bind _ _ v s (find_object-Reads json builder Keys.service obj v f) (
          Reads-bind _ _ tt s
            (check_type-Reads json builder Keys.service v JsonType.object object
              (builder.type-object _) refl)
            (Reads-bind _ _ (some s.log_level) s
              (extract_log_level-Reads json builder v s.log_level
                (find-once json builder Keys.log_level ms _ refl))
              (Reads-bind _ _ (some s.threads) s
                (extract_unsigned_number_opt-Reads json builder size_max v Keys.threads s.threads
                  (find-once json builder Keys.threads ms _ refl) h (omega (arith, h)))
                (Reads-pure s)))))

  -- The array under a key, when its elements are read.
  array-Reads :
      {T : Type 0} (key complaint : String) (extract : Value → Extract T) (document : T → Value)
      (P : T → Type 0) (obj : Value) (t : T) (ts : List T)
      → ((u : T) → P u → Reads (extract (document u)) u)
      → json.find key obj ≡ some (builder.array (map document (t ∷ ts)))
      → All P (t ∷ ts)
      → Reads
          (trace_deep key (do
            vs ← find_object json key obj
            check_type json key vs array
            extract_nonempty key complaint extract (json.items vs)))
          (t ∷ ts)
  unfolding convert_json_type
  array-Reads key complaint extract document P obj t ts reads f ps =
      let vs = map document (t ∷ ts) in
      let v = builder.array vs in
      Reads-trace_deep key _ (t ∷ ts) (
        Reads-bind _ _ v (t ∷ ts) (find_object-Reads json builder key obj v f) (
          Reads-bind _ _ tt (t ∷ ts)
            (check_type-Reads json builder key v JsonType.array array (builder.type-array vs) refl)
            (λ path.
              ap (λ xs. extract_nonempty key complaint extract xs path) (builder.items-array vs)
              ∙ extract_nonempty-Reads P document extract reads key complaint t ts ps path)))

module _ {Value Float Addr : Type 0} (json : Json Value Float) (builder : Builder json)
    (asio : Asio Addr) (ids : UnitIds) (show : Addr → String) where
  abbrev config_members : Config Addr → List (String × Option Value)
  config_members c =
      ("service", some (service_document json builder c.config_service))
      ∷ ("slaves", some (builder.array (map (transport_document json builder show) c.slaves)))
      ∷ ("masters", some (builder.array (map (transport_document json builder show) c.masters)))
      ∷ []

  -- The document of a configuration.
  abbrev pub config_document : Config Addr → Value
  config_document c = members json builder (config_members c)

  -- What a file can say: the numbers fit and the two lists hold transports of their kind.
  abbrev pub IsEntry : Config Addr → Type 0
  IsEntry c =
      (c.config_service.threads ≤ size_max)
      × (c.slaves ≢ [])
      × All (IsSlaveEntry json builder asio ids show) c.slaves
      × (c.masters ≢ [])
      × All (IsMasterTransport json builder asio ids show) c.masters

  module _ (shows : (a : Addr) → asio.make_address (show a) ≡ some a) (within : ids.max ≤ ids.limit)
      (limited : ids.limit < 2 ^ 64) where
    once :
        (c : Config Addr) (key : String) (o : Option Value)
        → lookup key (config_members c) ≡ or_else o none
        → json.find key (config_document c) ≡ o
    once c key o e = find-once json builder key (config_members c) o e

    extract_slaves-Reads :
        (obj : Value) (cs : List (TransportConfig Addr))
        → json.find Keys.slaves obj
          ≡ some (builder.array (map (transport_document json builder show) cs))
        → cs ≢ []
        → All (IsSlaveEntry json builder asio ids show) cs
        → Reads (extract_slaves json asio ids obj) cs
    unfolding extract_slaves
    extract_slaves-Reads obj [] f n ps = absurd (n refl)
    extract_slaves-Reads obj (c ∷ cs) f n ps =
        array-Reads json builder Keys.slaves "slaves empty" (extract_slave json asio ids)
          (transport_document json builder show) (IsSlaveEntry json builder asio ids show) obj c cs
          (extract_slave-Reads json builder asio ids show shows within limited) f ps

    extract_masters-Reads :
        (obj : Value) (cs : List (TransportConfig Addr))
        → json.find Keys.masters obj
          ≡ some (builder.array (map (transport_document json builder show) cs))
        → cs ≢ []
        → All (IsMasterTransport json builder asio ids show) cs
        → Reads (extract_masters json asio ids obj) cs
    unfolding extract_masters
    extract_masters-Reads obj [] f n ps = absurd (n refl)
    extract_masters-Reads obj (c ∷ cs) f n ps =
        array-Reads json builder Keys.masters "masters empty" (extract_master json asio ids)
          (transport_document json builder show) (IsMasterTransport json builder asio ids show) obj
          c cs (extract_master-Reads json builder asio ids show shows within limited) f ps

    extract_config-Reads :
        (c : Config Addr) → IsEntry c → Reads (extract_config json asio ids (config_document c)) c
    unfolding extract_config
    extract_config-Reads c (h, ns, ps, nm, pm) =
        Reads-bind _ _ c.config_service c
          (extract_config_service-Reads json builder _ c.config_service (once c Keys.service _ refl)
            h)
          (Reads-bind _ _ c.slaves c
            (extract_slaves-Reads _ c.slaves (once c Keys.slaves _ refl) ns ps)
            (Reads-bind _ _ c.masters c
              (extract_masters-Reads _ c.masters (once c Keys.masters _ refl) nm pm)
              (Reads-pure c)))

    -- Reading the text that the JSON library parses to the document of a configuration gives the
    -- configuration: for a number of threads and serial options that their types hold, timeouts
    -- below 2 ^ 63 ms, which a signed count of 64 bits holds, ports from 1 on, serial lines whose frame type is not TCP and whose character size asio
    -- accepts, unit id ranges within the unit ids whose begin is not past their end, at least one
    -- slave and one master, and addresses that are read as they are shown. The bounds of the unit
    -- ids are numbers of 64 bits.
    pub read_config-config_document :
        (c : Config Addr) (text : String)
        → IsEntry c
        → json.parse text ≡ some (config_document c)
        → read_config json asio ids text ≡ ok c
    unfolding read_config
    read_config-config_document c text e p =
        ap (λ o. read_parsed json asio ids o) p
        ∙ ap (λ out. out.0) (extract_config-Reads c e (push "config" []))
