-- ===== src/Main/Reports.antt =====
-- What the program tells its user.
use Prim.Native.String.{String}
use modbus_gateway.Base.{◌≡◌, Bool, true, false, Option, none, some}
use modbus_gateway.Modbus.{UnitIds}
use modbus_gateway.Exchange.{Exchange}
use modbus_gateway.Exception.{
  key_not_found, invalid_type, invalid_value, logic_error, runtime_error, system_error, Result, ok,
  throws, undefined, out_of_fuel,
}
use modbus_gateway.Config.Json.{Json, Asio}
use modbus_gateway.Gateway.{System}
use modbus_gateway.Gateway.Startup.{Gateway, start_program}
use modbus_gateway.Gateway.Safety.{RoutesGateway}
use modbus_gateway.Main.{
  Parse, parsed, refused, Cxxopts, Caught, exception, command_line_exception, option_exception,
  Ending, exits, serves, ◌<>◌,
}

-- The cause of a failure is not what the code calls a bug.
abbrev pub IsForUser : Caught → Type 0
IsForUser (exception (logic_error message)) = ⊥
IsForUser _ = Unit

-- The text for a cause: three lines for an exception of the parser, with the key and the path at which
-- it was thrown, one line for any other.
abbrev pub explains : Caught → String
explains (exception (key_not_found path key)) =
    "error: " <> "key not found" <> "\n" <> "\tin: " <> key <> "\n" <> "\tpath: " <> path <> "\n"
explains (exception (invalid_type path key expect actual)) =
    "error: " <> "invalid type" <> "\n" <> "\tin: " <> key <> "\n" <> "\tpath: " <> path <> "\n"
explains (exception (invalid_value path key value)) =
    "error: " <> "invalid value" <> "\n" <> "\tin: " <> key <> "\n" <> "\tpath: " <> path <> "\n"
explains (exception (logic_error message)) = "error: " <> message <> "\n"
explains (exception (runtime_error message)) = "error: " <> message <> "\n"
explains (exception (system_error message)) = "error: " <> message <> "\n"
explains (command_line_exception message) = "error: " <> message <> "\n"
explains (option_exception message) = "error: " <> message <> "\n"

module _ {Addr Table : Type 0} (exchange : Exchange Table) (ids : UnitIds) where
  -- The end that belongs to what the start gives: it serves, with the gateway made, a slave and a table
  -- that routes the unit ids to the masters; or it tells the exception thrown and exits with 1. No
  -- end belongs to a bug, to undefined behaviour or to a loop that does not end.
  abbrev pub Answers : Result (Gateway Addr Table) → Ending Addr Table → Type 0
  Answers (ok gateway) e = (e ≡ serves gateway) × RoutesGateway exchange ids gateway
  Answers (throws thrown) e =
      IsForUser (exception thrown) × (e ≡ exits 1 "" (explains (exception thrown)))
  Answers undefined e = ⊥
  Answers out_of_fuel e = ⊥

module _ {Parsed Value Float Addr Table : Type 0} (cxxopts : Cxxopts Parsed)
    (json : Json Value Float) (asio : Asio Addr) (ids : UnitIds) (system : System Addr)
    (exchange : Exchange Table) (file : String → String) (t : Table) where
  -- What follows from whether help was asked for and which file was named.
  abbrev pub IsChosen : Bool → Option String → Ending Addr Table → Type 0
  IsChosen true config e = e ≡ exits 0 cxxopts.help ""
  IsChosen false none e = e ≡ exits 1 "" "error: config arg not set\n"
  IsChosen false (some path) e =
      Answers exchange ids (start_program json asio ids system exchange (file path) t) e

  abbrev pub IsAnswered : Parse Parsed → Ending Addr Table → Type 0
  IsAnswered (refused message) e = e ≡ exits 1 "" ("error: " <> message <> "\n")
  IsAnswered (parsed p) e = IsChosen (cxxopts.has_help p) (cxxopts.config p) e
