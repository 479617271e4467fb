-- ===== src/Examples/Command.antt =====
-- The whole program at concrete arguments.
use Prim.Native.String.{String}
use text.Mathlib.Text.{◌==◌ as str_eq}
use modbus_gateway.Base.{◌≡◌, refl, Bool, true, false, Option, none, some, List, [], ◌∷◌}
use modbus_gateway.Exception.{key_not_found}
use modbus_gateway.Main.{
  Parse, parsed, refused, Cxxopts, exits, report, report_parser, what, exception, fail, main,
}
use modbus_gateway.Examples.Samples.{ids, exchange}
use modbus_gateway.Examples.Documents.{json, asio}
use modbus_gateway.Examples.Start.{system}

-- `-h`, or `-c` and a file, or nothing.
abbrev parse_arguments : List String → Parse (List String)
parse_arguments [] = parsed []
parse_arguments (a ∷ as_) = elim (str_eq "-h" a) [
  | true ↦ parsed (a ∷ as_)
  | false ↦ elim (str_eq "-c" a) [ true ↦ parsed (a ∷ as_) | false ↦ refused "no such option" ]
]

abbrev is_help : List String → Bool
is_help [] = false
is_help (a ∷ as_) = str_eq "-h" a

abbrev file_named : List String → Option String
file_named (a ∷ path ∷ as_) = some path
file_named _ = none

abbrev cxxopts : Cxxopts (List String)
cxxopts = record {
  parse = parse_arguments;
  has_help = is_help;
  help = "Modbus gateway";
  config = file_named;
}

abbrev file : String → String
file path = if_named (str_eq "gateway.json" path)
  where
    if_named : Bool → String
    if_named true = "text"
    if_named false = ""

helped :
    main cxxopts json asio ids system exchange file ("-h" ∷ []) [] ≡ exits 0 "Modbus gateway" ""
unfolding main
helped = refl

unnamed :
    main cxxopts json asio ids system exchange file [] [] ≡ exits 1 "" "error: config arg not set\n"
unfolding main fail report what
unnamed = refl

missing_key :
    report (exception (key_not_found "config.slaves.0.ip_port" "ip_port"))
    ≡ "error: key not found\n\tin: ip_port\n\tpath: config.slaves.0.ip_port\n"
unfolding report report_parser what
missing_key = refl
