-- ===== src/Gateway/Startup.antt =====
-- modbus_gateway.cpp and main.cpp: the start of the gateway, up to the first message.
use Prim.Native.String.{String}
use modbus_gateway.Base.{ℕ, Bool, true, false, List, [], ◌∷◌}
use modbus_gateway.Modbus.{UnitIds}
use modbus_gateway.Exchange.{Exchange}
use modbus_gateway.Router.{Router}
use modbus_gateway.Exception.{Result, ok, throws, logic_error, ◌>>=◌, ◌>>◌, or_throw}
use modbus_gateway.Config.Json.{Json, Asio}
use modbus_gateway.Config.Reader.{Config, read_config, validate}
use modbus_gateway.Gateway.{System, Master, Slave, make_masters, make_slaves, make_router}

-- The actors that were made, the table of the masters, and the exchange's table.
pub record Gateway (Addr Table : Type 0) : Type 0 where
  pub masters : List (Master Addr)
  pub router : Router
  pub slaves : List (Slave Addr)
  pub table : Table

-- `empty()`
abbrev pub is_empty : {A : Type 0} → List A → Bool
is_empty [] = true
is_empty (x ∷ xs) = false

abbrev pub throw_if : Bool → String → Result (Unit {0})
throw_if true message = throws (logic_error message)
throw_if false message = ok tt

module _ {Addr Table : Type 0} (system : System Addr) (exchange : Exchange Table) (limit : ℕ) where
  -- ModbusGateway, up to the start of the slaves.
  unfoldable pub start_gateway : Config Addr → Table → Result (Gateway Addr Table)
  start_gateway config t = do
    made ← make_masters system exchange config.masters t
    throw_if (is_empty made.0) "BUG! masters is empty"
    maybe_router ← make_router limit exchange.default_id made.0
    router ← or_throw (logic_error "BUG! router is null") maybe_router
    served ← make_slaves system exchange config.slaves made.1
    throw_if (is_empty served.0) "BUG! slaves is empty"
    ok (record { masters = made.0; router = router; slaves = served.0; table = served.1 })

-- The body of `main`, for the text of the configuration file.
unfoldable pub start_program :
    {Value Float Addr Table : Type 0}
    → Json Value Float
    → Asio Addr
    → UnitIds
    → System Addr
    → Exchange Table
    → String
    → Table
    → Result (Gateway Addr Table)
unfolding start_gateway
start_program json asio ids system exchange text t = do
  config ← read_config json asio ids text
  validate config
  start_gateway system exchange ids.limit config t
