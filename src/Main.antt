-- ===== src/Main.antt =====
-- main.cpp and src/command_line: the whole program, with what it prints and its exit code.
pub mod Reports
use Prim.Native.String.{String}
use Prim.Native.String
use modbus_gateway.Base.{ℕ, Bool, true, false, Option, none, some, List, [], ◌∷◌}
use modbus_gateway.Modbus.{UnitIds}
use modbus_gateway.Exchange.{Exchange}
use modbus_gateway.Exception.{
  Exception, key_not_found, invalid_type, invalid_value, logic_error, runtime_error, system_error,
  Result, ok, throws, undefined, out_of_fuel,
}
use modbus_gateway.Config.Json.{Json, Asio}
use modbus_gateway.Gateway.{System}
use modbus_gateway.Gateway.Startup.{Gateway, start_program}

-- What `options_.parse` of the cxxopts library gives: the options, or the text of an exception.
pub data Parse (Parsed : Type 0) : Type 0 where
  parsed : Parsed → Parse Parsed
  refused : String → Parse Parsed

-- The cxxopts library as the program calls it, with the options `help` and `config`: a parameter.
pub record Cxxopts (Parsed : Type 0) : Type 0 where
  pub parse : List String → Parse Parsed
  -- parseResult_.count("help") and options_.help()
  pub has_help : Parsed → Bool
  pub help : String
  -- parseResult_["config"], if count("config") is not 0
  pub config : Parsed → Option String

-- What a `catch` of main catches: an exception of the start, a CommandLineException, or one of the
-- library for the command line.
pub data Caught : Type 0 where
  exception : Exception → Caught
  command_line_exception : String → Caught
  option_exception : String → Caught

-- The end of a run: it exits with what it wrote to the standard output and the standard error; or it
-- serves until a signal stops it, and then exits with success, or until an exception leaves a handler
-- and ends it; or its behaviour is undefined.
pub data Ending (Addr Table : Type 0) : Type 0 where
  exits : ℕ → String → String → Ending Addr Table
  serves : Gateway Addr Table → Ending Addr Table
  crashes : Ending Addr Table

abbrev pub exit_success : ℕ
exit_success = 0

abbrev pub exit_failure : ℕ
exit_failure = 1

-- what() of the classes of the parser, and of the others, which hold their text.
abbrev key_not_found_what : String
key_not_found_what = "key not found"

abbrev invalid_type_what : String
invalid_type_what = "invalid type"

abbrev invalid_value_what : String
invalid_value_what = "invalid value"

unfoldable pub what : Exception → String
what (key_not_found path key) = key_not_found_what
what (invalid_type path key expect actual) = invalid_type_what
what (invalid_value path key value) = invalid_value_what
what (logic_error message) = message
what (runtime_error message) = message
what (system_error message) = message

-- `none` is an exception that is not a ParserException.
abbrev get_target_key : Exception → Option String
get_target_key (key_not_found path key) = some key
get_target_key (invalid_type path key expect actual) = some key
get_target_key (invalid_value path key value) = some key
get_target_key _ = none

abbrev get_full_path : Exception → Option String
get_full_path (key_not_found path key) = some path
get_full_path (invalid_type path key expect actual) = some path
get_full_path (invalid_value path key value) = some path
get_full_path _ = none

infixr 5 ◌<>◌
abbrev pub ◌<>◌ : String → String → String
s <> t = String.◌++◌ s t

-- The handler for ParserException.
unfoldable pub report_parser : Exception → String → String → String
unfolding what
report_parser e key path =
    "error: " <> what e <> "\n" <> "\tin: " <> key <> "\n" <> "\tpath: " <> path <> "\n"

-- The handler for std::exception.
unfoldable pub report_other : String → String
report_other message = "error: " <> message <> "\n"

-- Which handler catches an exception of the start: ParserException is the first.
abbrev report_exception : Exception → Option String → Option String → String
report_exception e (some key) (some path) = report_parser e key path
report_exception e _ _ = report_other (what e)

unfoldable pub report : Caught → String
unfolding report_parser report_other what
report (exception e) = report_exception e (get_target_key e) (get_full_path e)
report (command_line_exception message) = report_other message
report (option_exception message) = report_other message

module _ {Addr Table : Type 0} where
  unfoldable pub fail : Caught → Ending Addr Table
  unfolding report
  fail caught = exits exit_failure "" (report caught)

  -- The `try` block from the reading of the file on.
  unfoldable pub finish : Result (Gateway Addr Table) → Ending Addr Table
  unfolding fail
  finish (ok gateway) = serves gateway
  finish (throws e) = fail (exception e)
  finish undefined = crashes
  finish out_of_fuel = crashes

module _ {Parsed Value Float Addr Table : Type 0} (cxxopts : Cxxopts Parsed)
    (json : Json Value Float) (asio : Asio Addr) (ids : UnitIds) (system : System Addr)
    (exchange : Exchange Table) where
  -- CommandLine::GetConfigPath, then the reading: `file path` is what std::ifstream reads, nothing if
  -- the file cannot be opened.
  abbrev pub run_config : (String → String) → Option String → Table → Ending Addr Table
  run_config file none t = fail (command_line_exception "config arg not set")
  run_config file (some path) t = finish (start_program json asio ids system exchange (file path) t)

  -- The `try` block after the parsing: CommandLine::IsHelp and PrintHelp.
  abbrev pub run_options : (String → String) → Bool → Option String → Table → Ending Addr Table
  run_options file true config t = exits exit_success cxxopts.help ""
  run_options file false config t = run_config file config t

  abbrev pub run_parsed : (String → String) → Parse Parsed → Table → Ending Addr Table
  run_parsed file (refused message) t = fail (option_exception message)
  run_parsed file (parsed p) t = run_options file (cxxopts.has_help p) (cxxopts.config p) t

  unfoldable pub main : (String → String) → List String → Table → Ending Addr Table
  unfolding finish fail
  main file argv t = run_parsed file (cxxopts.parse argv) t
