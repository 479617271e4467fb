-- ===== src/Gateway/Program.antt =====
-- main.cpp: from the text of the configuration to a gateway that routes.
use Prim.Native.String.{String}
use modbus_gateway.Base.{◌<◌, Option-cases, inl, inr, []}
use modbus_gateway.Modbus.{UnitIds}
use modbus_gateway.Exchange.{Exchange}
use modbus_gateway.Config.Json.{Json, Asio}
use modbus_gateway.Config.Reader.{read_config, validate}
use modbus_gateway.Config.Reader.Laws.{
  IsUsable, read_config-IsUsable, read_config_parsed, read_config_unparsed, extract_config-Orderly,
  validate-IsDiagnosed,
}
use modbus_gateway.Gateway.{System}
use modbus_gateway.Gateway.Startup.{start_gateway, start_program}
use modbus_gateway.Gateway.Outcomes.{
  EndsWell-RunsWell, RunsWell, RunsWell-bind, IsDiagnosed-RunsWell,
}
use modbus_gateway.Gateway.Safety.{RoutesGateway, start_gateway-EndsWell}
use modbus_gateway.Config.Extract.Orderly.{IsTold-IsDiagnosed}

module _ {Value Float Addr : Type 0} (json : Json Value Float) (asio : Asio Addr)
    (ids : UnitIds) where
  read_config-RunsWell : (text : String) → RunsWell (IsUsable ids) (read_config json asio ids text)
  read_config-RunsWell text = elim (Option-cases (json.parse text)) [
    | inl e ↦ rw (read_config_unparsed json asio ids text e) tt
    | inr (data_, e) ↦
        IsDiagnosed-RunsWell (IsUsable ids) (read_config json asio ids text)
          (rw (read_config_parsed json asio ids text data_ e) (
            IsTold-IsDiagnosed _ _ ((extract_config-Orderly json asio ids "config" data_).told [])))
          (read_config-IsUsable json asio ids text)
  ]

module _ {Value Float Addr Table : Type 0} (json : Json Value Float) (asio : Asio Addr)
    (ids : UnitIds) (system : System Addr) (exchange : Exchange Table) where
  -- If the largest unit id is below the size of the routing table, then for every text of the
  -- configuration file the program's start ends, and no table is accessed past its end. Either an
  -- exception of the parser, of the validation, of the JSON library or of the system is thrown, but
  -- none that the code calls a bug; or the gateway is made, there is a slave, and the table sends each
  -- unit id below its size to the last master that claims it, or else to the default master, or else
  -- to the default actor id.
  pub start_program-RunsWell :
      ids.max < ids.limit
      → (text : String) (t : Table)
      → RunsWell (RoutesGateway exchange ids) (start_program json asio ids system exchange text t)
  unfolding start_program
  start_program-RunsWell h text t =
      RunsWell-bind _ _ (read_config json asio ids text) _ (read_config-RunsWell json asio ids text)
        (λ config usable.
          RunsWell-bind (λ _. Unit {0}) _ (validate config) _
            (IsDiagnosed-RunsWell _ (validate config) (validate-IsDiagnosed config) (λ a e. tt))
            (λ u _.
              EndsWell-RunsWell _ (start_gateway system exchange ids.limit config t)
                (start_gateway-EndsWell system exchange ids h config t usable.0 usable.1)))
