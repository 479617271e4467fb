-- ===== src/Config/Validators.antt =====
-- config/validators.cpp, which is not part of the build: the checks of the endpoints and of the unit
-- ids, with TCP read as the class of TCP servers, or of TCP clients.
pub mod Endpoints
pub mod Servers
pub mod Clients
use Prim.Native.String.{String}
use Prim.Native.String
use modbus_gateway.Base.{
  ℕ, suc, ◌-◌, ◌+◌, ◌%◌, Bool, true, false, ◌&&◌, ◌||◌, not, Option, none, some, List, [], ◌∷◌,
  ◌++◌, ltb, ◌==◌, if◌then◌else◌,
}
use modbus_gateway.Decimal.{to_string}
use modbus_gateway.Modbus.{UnitIds}
use modbus_gateway.Exception.{logic_error}
use modbus_gateway.Config.Types.{
  TransportConfig, tcp_server, tcp_client, UnitIdRange, TcpServerConfig, TcpClientConfig,
}
use modbus_gateway.Config.Extract.{
  Extract, ◌>>=◌, ◌>>◌, pure, trace_deep, throw_invalid_value, throw,
}

-- The addresses as these checks use them: asio's comparison, `any` and `to_string`, and the output of
-- a unit id on a stream.
pub record Addresses (Addr : Type 0) : Type 0 where
  pub same : Addr → Addr → Bool
  pub any : Addr
  pub show : Addr → String
  pub show_id : ℕ → String

infixr 5 ◌<>◌
abbrev ◌<>◌ : String → String → String
s <> t = String.◌++◌ s t

-- The map from ports to sets of addresses.
abbrev pub Endpoints : Type 0 → Type 0
Endpoints Addr = ℕ → Option (List Addr)

abbrev pub assign : {Addr : Type 0} → Endpoints Addr → ℕ → List Addr → Endpoints Addr
assign f port set p = if port == p then some set else f p

module _ {Addr : Type 0} (addresses : Addresses Addr) where
  -- std::find in a set; `none` is end().
  abbrev pub find_address : List Addr → Addr → Option Addr
  find_address [] a = none
  find_address (b ∷ bs) a = if addresses.same b a then some b else find_address bs a

  abbrev pub is_any : Addr → Bool
  is_any a = addresses.same a addresses.any

  -- The end of a `case`: the address was found in the set, or it is appended to it.
  abbrev pub add_address :
      String → Endpoints Addr → ℕ → List Addr → Addr → Option Addr → Extract (Endpoints Addr)
  add_address other f port set a (some b) = throw_invalid_value "0" (
      "ip address "
      <> addresses.show a
      <> " intersected with ip address "
      <> addresses.show b
      <> other)
  add_address other f port set a none = pure (assign f port (set ++ a ∷ []))

  -- A server's endpoint, with what the map has at its port.
  abbrev pub add_server_at :
      Endpoints Addr → ℕ → Addr → Option (List Addr) → Extract (Endpoints Addr)
  add_server_at f port a none = pure (assign f port (if is_any a then [] else a ∷ []))
  add_server_at f port a (some []) =
      if is_any a
      then throw_invalid_value "0" "any ip address intersected with ip address on other server"
      else throw_invalid_value "0"
          ("ip address " <> addresses.show a <> " intersected with any address on other server")
  add_server_at f port a (some (b ∷ bs)) =
      if is_any a
      then throw_invalid_value "0" "any ip address intersected with ip address on other server"
      else add_address " on other server" f port (b ∷ bs) a (find_address (b ∷ bs) a)

  abbrev pub add_server : Endpoints Addr → TransportConfig Addr → Extract (Endpoints Addr)
  add_server f (tcp_server c) = add_server_at f c.port c.address (f c.port)
  add_server f _ = throw (logic_error "unknown server type")

  -- The loop of ValidateServers. Its index is never advanced.
  unfoldable pub add_servers :
      Endpoints Addr → List (TransportConfig Addr) → Extract (Endpoints Addr)
  add_servers f [] = pure f
  add_servers f (c ∷ cs) = do f' ← trace_deep "0" (add_server f c); add_servers f' cs

  unfoldable pub validate_servers : List (TransportConfig Addr) → Extract (Unit {0})
  unfolding add_servers
  validate_servers cs = trace_deep "servers" (do f ← add_servers (λ p. none) cs; pure tt)

-- UnitIdRangeComparator
abbrev pub precedes : UnitIdRange → UnitIdRange → Bool
precedes lhs rhs = ltb lhs.end rhs.begin

-- Whether a std::set with this order has an element that it takes for the same as the range.
abbrev pub has_same : List UnitIdRange → UnitIdRange → Bool
has_same [] range = false
has_same (r ∷ rs) range = (not (precedes r range) && not (precedes range r)) || has_same rs range

-- UnitIdRangeValidator
pub record UnitIdRangeValidator : Type 0 where
  pub unit_id_set : List UnitIdRange
  pub default_unit_ids_client : Bool
  pub unit_id_counter : ℕ

abbrev pub new_validator : UnitIdRangeValidator
new_validator = record { unit_id_set = []; default_unit_ids_client = false; unit_id_counter = 0 }

module _ {Addr : Type 0} (addresses : Addresses Addr) (ids : UnitIds) where
  -- The counter is a UnitId: it wraps round after `limit`, and so does the difference.
  abbrev pub count : UnitIdRange → ℕ → ℕ
  count range counter =
      if range.begin == range.end
      then suc counter % suc ids.limit
      else (counter + (suc ids.limit + range.end - range.begin)) % suc ids.limit

  -- The loop of Insert.
  abbrev pub insert_ranges : List UnitIdRange → UnitIdRangeValidator → Extract UnitIdRangeValidator
  insert_ranges [] v = pure v
  insert_ranges (range ∷ ranges) v =
      let rest = insert_ranges ranges (record v {
        unit_id_set = v.unit_id_set ++ range ∷ [];
        unit_id_counter = count range v.unit_id_counter;
      }) in
      if has_same v.unit_id_set range
      then throw_invalid_value "0" (
          "unit id range "
          <> addresses.show_id range.begin
          <> "-"
          <> addresses.show_id range.end
          <> " intersected with unit id range on other client")
      else rest

  abbrev pub insert : List UnitIdRange → UnitIdRangeValidator → Extract UnitIdRangeValidator
  insert [] v =
      if v.default_unit_ids_client
      then throw_invalid_value "0" "default unit id range already exist on other client"
      else pure (record v { default_unit_ids_client = true })
  insert (range ∷ ranges) v = insert_ranges (range ∷ ranges) v

  abbrev pub check_coverage : UnitIdRangeValidator → Extract (Unit {0})
  check_coverage v =
      if ltb v.unit_id_counter (ids.max - ids.min) && not v.default_unit_ids_client
      then throw_invalid_value "clients" (
          "unit id for all clients not coverage all supported unit id ("
          <> addresses.show_id ids.min
          <> "-"
          <> addresses.show_id ids.max
          <> "), set default client")
      else pure tt

  -- A client's endpoint, with what the map has at its port.
  abbrev pub add_client_at :
      Endpoints Addr → ℕ → Addr → Option (List Addr) → Extract (Endpoints Addr)
  add_client_at f port a none = pure (assign f port (a ∷ []))
  add_client_at f port a (some set) =
      add_address addresses " on other client" f port set a (find_address addresses set a)

  abbrev pub Progress : Type 0
  Progress = Endpoints Addr × UnitIdRangeValidator

  abbrev pub add_client : Progress → TransportConfig Addr → Extract Progress
  add_client (f, v) (tcp_client c) = do
    if is_any addresses c.address
        then throw_invalid_value "0" "any ip address don't allow for client"
        else pure tt
    f' ← add_client_at f c.port c.address (f c.port)
    v' ← insert c.unit_id_set v
    pure (f', v')
  add_client progress _ = throw (logic_error "unknown server type")

  -- The loop of ValidateClients. Its index is never advanced.
  unfoldable pub add_clients : Progress → List (TransportConfig Addr) → Extract Progress
  add_clients progress [] = pure progress
  add_clients progress (c ∷ cs) = do
    progress' ← trace_deep "0" (add_client progress c)
    add_clients progress' cs

  unfoldable pub validate_clients : List (TransportConfig Addr) → Extract (Unit {0})
  unfolding add_clients
  validate_clients cs =
      trace_deep "clients"
        (do progress ← add_clients ((λ p. none), new_validator) cs; check_coverage progress.1)
