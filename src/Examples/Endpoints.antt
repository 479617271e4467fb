-- ===== src/Examples/Endpoints.antt =====
-- The validators at concrete configurations.
use Prim.Native.String.{String}
use text.Mathlib.Text.{◌==◌ as str_eq}
use modbus_gateway.Base.{ℕ, ◌≤◌, ◌≡◌, refl, true, false, List, [], ◌∷◌}
use modbus_gateway.Decimal.{to_string}
use modbus_gateway.Modbus.{UnitIds}
use modbus_gateway.Exception.{ok}
use modbus_gateway.Config.Types.{TransportConfig, tcp_server, tcp_client, UnitIdRange}
use modbus_gateway.Config.Validators.{Addresses, validate_servers, validate_clients}
use modbus_gateway.Config.Validators.Endpoints.{succeeds, acceptable}
use modbus_gateway.Config.Validators.Servers.{validate_servers_lem}
use modbus_gateway.Config.Validators.Clients.{claim_count, all_ranges, validate_clients-claim_count}

-- Addresses are their texts; the empty one is `any`.
abbrev addresses : Addresses String
addresses = record { same = str_eq; any = ""; show = λ a. a; show_id = to_string }

abbrev server : String → ℕ → TransportConfig String
server a p = tcp_server (record { address = a; port = p })

-- Two addresses on one port, and one of them again on another.
abbrev servers : List (TransportConfig String)
servers = server "10.0.0.1" 502 ∷ server "10.0.0.2" 502 ∷ server "10.0.0.1" 503 ∷ []

validate_servers_lem_example :
    succeeds (validate_servers addresses servers []).0 ≡ acceptable addresses servers
validate_servers_lem_example = validate_servers_lem addresses servers []

servers_accepted : succeeds (validate_servers addresses servers []).0 ≡ true
unfolding validate_servers
servers_accepted = refl

any_refused :
    succeeds (validate_servers addresses (server "10.0.0.1" 502 ∷ server "" 502 ∷ []) []).0 ≡ false
unfolding validate_servers
any_refused = refl

abbrev few_ids : UnitIds
few_ids = record { limit = 255; min = 1; max = 4 }

abbrev client : String → List UnitIdRange → TransportConfig String
client a rs =
    tcp_client
      (record { master = record { timeout = 10; unit_id_set = rs }; address = a; port = 1 })

abbrev range : ℕ → ℕ → UnitIdRange
range b e = record { begin = b; end = e }

abbrev clients : List (TransportConfig String)
clients = client "a" (range 1 1 ∷ range 2 2 ∷ []) ∷ client "b" (range 3 3 ∷ []) ∷ []

clients_accepted : (validate_clients addresses few_ids clients []).0 ≡ ok tt
unfolding validate_clients
clients_accepted = refl

validate_clients-claim_count_example : claim_count 2 (all_ranges clients) ≤ 1
validate_clients-claim_count_example =
    validate_clients-claim_count addresses few_ids clients [] clients_accepted 2

-- The counter is one too low for each range of several unit ids: these two cover all four.
coverage_refused :
    succeeds
      (validate_clients addresses few_ids
        (client "a" (range 1 2 ∷ []) ∷ client "b" (range 3 4 ∷ []) ∷ [])
        []).0
    ≡ false
unfolding validate_clients
coverage_refused = refl
