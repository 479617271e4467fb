-- ===== src/Gateway.antt =====
-- modbus_gateway.cpp: the actors and the routing table that are made from the configuration.
pub mod Masters
pub mod Slaves
pub mod Routes
pub mod Startup
pub mod Outcomes
pub mod Safety
pub mod Program
use Prim.Native.String.{String}
use modbus_gateway.Base.{
  ℕ, zero, suc, Bool, true, false, Option, none, some, List, [], ◌∷◌, ◌++◌, leb, if◌then◌else◌,
}
use modbus_gateway.Modbus.{increment}
use modbus_gateway.Exchange.{Exchange}
use modbus_gateway.Router.{Router, default_router, set_route}
use modbus_gateway.Exception.{
  Result, ok, throws, undefined, out_of_fuel, logic_error, system_error, ◌>>=◌, ◌>>◌, or_throw,
}
use modbus_gateway.Config.Types.{
  TransportConfig, tcp_server, rtu_slave, tcp_client, rtu_master, RtuOptions, UnitIdRange,
  as_master,
}

-- What the constructors of the actors ask of the system: `serialPort_.open` and `set_option`, and
-- the binding of an acceptor; a text is the what() of the exception that this throws, which is of a
-- class that `main` does not tell from system_error.
pub record System (Addr : Type 0) : Type 0 where
  pub opens : String → RtuOptions → Option String
  pub binds : Addr → ℕ → Option String

-- An actor stands for its id, which `exchange->Add` sets on it.
pub record Master (Addr : Type 0) : Type 0 where
  pub config : TransportConfig Addr
  pub actor : ℕ

pub record Slave (Addr : Type 0) : Type 0 where
  pub config : TransportConfig Addr
  pub actor : ℕ

-- Code that the system stops with an exception, if it gives the text of one.
abbrev pub refuse : Option String → Result (Unit {0})
refuse none = ok tt
refuse (some text) = throws (system_error text)

module _ {Addr Table : Type 0} (system : System Addr) (exchange : Exchange Table) where
  -- The `switch` of MakeMasters: a serial port is opened before the actor is added.
  unfoldable pub make_master : TransportConfig Addr → Table → Result (Master Addr × Table)
  make_master (tcp_client c) t =
      let (id, t') = exchange.add t in ok (record { config = tcp_client c; actor = id }, t')
  make_master (rtu_master c) t = do
    refuse (system.opens c.device c.rtu_options)
    let added = exchange.add t
    ok (record { config = rtu_master c; actor = added.0 }, added.1)
  make_master (tcp_server c) t = throws (logic_error "BUG! unknown client type")
  make_master (rtu_slave c) t = throws (logic_error "BUG! unknown client type")

  -- The `switch` of MakeSlaves.
  unfoldable pub make_slave : TransportConfig Addr → Table → Result (Slave Addr × Table)
  make_slave (tcp_server c) t = do
    refuse (system.binds c.address c.port)
    let added = exchange.add t
    ok (record { config = tcp_server c; actor = added.0 }, added.1)
  make_slave (rtu_slave c) t = do
    refuse (system.opens c.device c.rtu_options)
    let added = exchange.add t
    ok (record { config = rtu_slave c; actor = added.0 }, added.1)
  make_slave (tcp_client c) t = throws (logic_error "BUG! unknown client type")
  make_slave (rtu_master c) t = throws (logic_error "BUG! unknown client type")

-- `unitIdSet.empty()` of a master's configuration.
abbrev pub is_default : {Addr : Type 0} → TransportConfig Addr → Bool
is_default c = elim (as_master c) [
  | none ↦ false
  | some m ↦ elim m.unit_id_set [ [] ↦ true | _ ∷ _ ↦ false ]
]

-- A default master is inserted in front, any other at the end.
abbrev pub insert_master : {Addr : Type 0} → Master Addr → List (Master Addr) → List (Master Addr)
insert_master m ms = if is_default m.config then m ∷ ms else ms ++ m ∷ []

module _ {Addr Table : Type 0} (system : System Addr) (exchange : Exchange Table) where
  make_masters_from :
      List (Master Addr) → List (TransportConfig Addr) → Table → Result (List (Master Addr) × Table)
  make_masters_from masters [] t = ok (masters, t)
  make_masters_from masters (c ∷ cs) t = do
    made ← make_master system exchange c t
    make_masters_from (insert_master made.0 masters) cs made.1

  unfoldable pub make_masters :
      List (TransportConfig Addr) → Table → Result (List (Master Addr) × Table)
  unfolding make_masters_from make_master
  make_masters = make_masters_from []

  make_slaves_from :
      List (Slave Addr) → List (TransportConfig Addr) → Table → Result (List (Slave Addr) × Table)
  make_slaves_from slaves [] t = ok (slaves, t)
  make_slaves_from slaves (c ∷ cs) t = do
    made ← make_slave system exchange c t
    make_slaves_from (slaves ++ made.0 ∷ []) cs made.1

  unfoldable pub make_slaves :
      List (TransportConfig Addr) → Table → Result (List (Slave Addr) × Table)
  unfolding make_slaves_from make_slave
  make_slaves = make_slaves_from []

-- `for (UnitId unitId = begin; unitId <= end; ++unitId) router->Set(unitId, id);`, where `unitId`
-- wraps round after `limit`.
unfoldable pub fill_range : ℕ → ℕ → ℕ → ℕ → ℕ → Router → Result Router
fill_range limit zero unit_id end id r = out_of_fuel
fill_range limit (suc fuel) unit_id end id r =
    let round : Result Router = elim (set_route unit_id id r) [
      | none ↦ undefined
      | some r' ↦ fill_range limit fuel (increment limit unit_id) end id r'
    ] in
    if leb unit_id end then round else ok r

-- The loop makes at most `limit + 1` rounds and one more test.
abbrev pub range_fuel : ℕ → ℕ
range_fuel limit = suc (suc limit)

unfoldable pub fill_ranges : ℕ → List UnitIdRange → ℕ → Router → Result Router
unfolding fill_range
fill_ranges limit [] id r = ok r
fill_ranges limit (range ∷ ranges) id r = do
  r' ← fill_range limit (range_fuel limit) range.begin range.end id r
  fill_ranges limit ranges id r'

unfoldable pub fill_masters : {Addr : Type 0} → ℕ → List (Master Addr) → Router → Result Router
unfolding fill_ranges
fill_masters limit [] r = ok r
fill_masters limit (m ∷ ms) r = do
  config ← or_throw (logic_error "BUG! cast to MasterConfig failed") (as_master m.config)
  r' ← fill_ranges limit config.unit_id_set m.actor r
  fill_masters limit ms r'

-- `none` is the null pointer.
unfoldable pub make_router : {Addr : Type 0} → ℕ → ℕ → List (Master Addr) → Result (Option Router)
unfolding fill_masters default_router
make_router limit default_id [] = ok none
make_router limit default_id (m ∷ ms) = do
  config ← or_throw (logic_error "BUG! cast to MasterConfig failed") (as_master m.config)
  r ← elim config.unit_id_set [
    | [] ↦ fill_masters limit ms (default_router limit m.actor)
    | _ ∷ _ ↦ fill_masters limit (m ∷ ms) (default_router limit default_id)
  ]
  ok (some r)
