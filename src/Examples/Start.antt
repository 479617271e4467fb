-- ===== src/Examples/Start.antt =====
-- The start of the gateway at concrete inputs.
use Prim.Native.String.{String}
use modbus_gateway.Base.{ℕ, ◌≤◌, ◌≡◌, ◌↔◌, refl, false, none, List, [], ◌∷◌, arith}
use modbus_gateway.Exception.{ok}
use modbus_gateway.LimitQueue.{LimitQueue, push, size}
use modbus_gateway.LimitQueue.Laws.{push_exceeds}
use modbus_gateway.Message.{ModbusMessageInfo}
use modbus_gateway.Config.Types.{TransportConfig, tcp_client}
use modbus_gateway.Config.Extract.Orderly.{Orderly}
use modbus_gateway.Config.Reader.{validate, extract_config}
use modbus_gateway.Config.Reader.Laws.{
  IsUsable, read_config-IsUsable, extract_config-Orderly, validate_iff, count_defaults,
}
use modbus_gateway.Gateway.{System, Master, make_masters, make_router}
use modbus_gateway.Gateway.Masters.{make_masters-Distinct, Distinct, Registered}
use modbus_gateway.Gateway.Routes.{RoutesAll, make_router_lem}
use modbus_gateway.Examples.Samples.{ids, exchange, exchange-Laws}
use modbus_gateway.Examples.Documents.{slave, json, asio, config, config_read}

abbrev pub system : System String
system = record { opens = λ d o. none; binds = λ a p. none }

read_config-IsUsable_example : IsUsable ids config
read_config-IsUsable_example = read_config-IsUsable json asio ids "text" config config_read

validate_iff_example : (validate config ≡ ok tt) ↔ (count_defaults config.masters ≤ 1)
validate_iff_example = validate_iff config

extract_config-Orderly_example : Orderly "config" (extract_config json asio ids slave)
extract_config-Orderly_example = extract_config-Orderly json asio ids "config" slave

-- Two masters without unit ids around one with some.
abbrev first : TransportConfig String
first =
    tcp_client
      (record { master = record { timeout = 10; unit_id_set = [] }; address = "a"; port = 1 })

abbrev second : TransportConfig String
second = tcp_client (record {
  master = record { timeout = 10; unit_id_set = record { begin = 3; end = 9 } ∷ [] };
  address = "b";
  port = 2;
})

abbrev third : TransportConfig String
third =
    tcp_client
      (record { master = record { timeout = 10; unit_id_set = [] }; address = "c"; port = 3 })

abbrev made : List (Master String)
made =
    record { config = third; actor = 15 }
    ∷ record { config = first; actor = 3 }
    ∷ record { config = second; actor = 7 }
    ∷ []

masters_made :
    make_masters system exchange (first ∷ second ∷ third ∷ []) (1 ∷ [])
    ≡ ok (made, 15 ∷ 7 ∷ 3 ∷ 1 ∷ [])
unfolding make_masters
masters_made = refl

make_masters-Distinct_example : Distinct made × Registered exchange (15 ∷ 7 ∷ 3 ∷ 1 ∷ []) made
make_masters-Distinct_example =
    make_masters-Distinct system exchange exchange-Laws (first ∷ second ∷ third ∷ []) (1 ∷ [])
      (15 ∷ 7 ∷ 3 ∷ 1 ∷ []) made masters_made

abbrev usable : List (Master String)
usable = record { config = first; actor = 3 } ∷ record { config = second; actor = 7 } ∷ []

make_router_lem_example : RoutesAll 255 0 usable (make_router 255 0 usable)
make_router_lem_example =
    make_router_lem 255 0 (record { config = first; actor = 3 })
      (record { config = second; actor = 7 } ∷ [])
      (
        (record { timeout = 10; unit_id_set = [] }, refl, tt),
        (
          (
            record { timeout = 10; unit_id_set = record { begin = 3; end = 9 } ∷ [] },
            refl,
            (omega arith, tt),
          ),
          tt,
        ),
      )

abbrev full : LimitQueue ℕ
full = record { queue = 1 ∷ 2 ∷ []; max_size = 2 }

push_exceeds_example : (size (push 3 full) ≡ 3) × ((push 3 full).queue ≡ 1 ∷ 2 ∷ 3 ∷ [])
unfolding push size
push_exceeds_example = push_exceeds 3 full refl

abbrev info : ModbusMessageInfo
info = record { create_timestamp = 10; timeout_reached = false; source_id = 1; transaction_id = 2 }
