-- ===== src/Gateway/Safety.antt =====
-- ModbusGateway on a configuration that was read: none of the errors that are called bugs.
use modbus_gateway.Base.{
  ◌<◌, ◌≢◌, refl, Option, some, List, [], ◌∷◌, ◌++◌, All, All-append, All-map, inl, inr, Bool-cases,
  Option-cases, arith,
}
use modbus_gateway.Modbus.{UnitIds}
use modbus_gateway.Exchange.{Exchange}
use modbus_gateway.Router.{Router}
use modbus_gateway.Exception.{Result, ok, ◌>>=◌}
use modbus_gateway.Config.Types.{
  TransportConfig, tcp_server, rtu_slave, tcp_client, rtu_master, UnitIdRange,
}
use modbus_gateway.Config.Transports.Kinds.{IsSlave, IsMaster}
use modbus_gateway.Config.Ranges.Bounds.{IsRange}
use modbus_gateway.Config.Reader.{Config}
use modbus_gateway.Gateway.{
  System, Master, Slave, make_master, make_masters_from, make_masters, make_slave, make_slaves_from,
  make_slaves, make_router, insert_master, is_default,
}
use modbus_gateway.Gateway.Routes.{IsRoutable, Fits, RoutesAll, make_router_lem}
use modbus_gateway.Gateway.Outcomes.{EndsWell, EndsWell-bind, EndsWell-nonempty}
use modbus_gateway.Gateway.Startup.{Gateway, is_empty, throw_if, start_gateway}

IsRange-Fits :
    (ids : UnitIds)
    → ids.max < ids.limit
    → (rs : List UnitIdRange) → All (IsRange ids) rs
    → Fits ids.limit rs
IsRange-Fits ids h rs = All-map _ _ rs (λ r p. omega (arith, p.2, h))

-- There is a slave, and the table routes the unit ids to the masters.
abbrev pub RoutesGateway :
    {Addr Table : Type 0} → Exchange Table → UnitIds → Gateway Addr Table → Type 0
RoutesGateway exchange ids gateway =
    (gateway.slaves ≢ [])
    × RoutesAll ids.limit exchange.default_id gateway.masters (ok (some gateway.router))

module _ {Addr Table : Type 0} (system : System Addr) (exchange : Exchange Table) (ids : UnitIds)
    (max_fits : ids.max < ids.limit) where
  abbrev MadeFrom : List (Master Addr) → Type 0
  MadeFrom ms = (ms ≢ []) × All (IsRoutable ids.limit) ms

  make_master-EndsWell :
      (c : TransportConfig Addr) (t : Table)
      → IsMaster ids c
      → EndsWell
          (λ (made : Master Addr × Table). IsRoutable ids.limit made.0)
          (make_master system exchange c t)
  unfolding make_master
  make_master-EndsWell (tcp_client c) t p = (c.master, refl, IsRange-Fits ids max_fits _ p.1)
  make_master-EndsWell (rtu_master c) t p =
      elim (Option-cases (system.opens c.device c.rtu_options)) [
        | inl e ↦ rw e (c.master, refl, IsRange-Fits ids max_fits _ p)
        | inr (text, e) ↦ rw e tt
      ]
  make_master-EndsWell (tcp_server c) t p = absurd p
  make_master-EndsWell (rtu_slave c) t p = absurd p

  insert_master-Routable :
      (m : Master Addr) (acc : List (Master Addr))
      → All (IsRoutable ids.limit) acc
      → IsRoutable ids.limit m
      → MadeFrom (insert_master m acc)
  insert_master-Routable m acc a p = elim (Bool-cases (is_default m.config)) [
    | inl e ↦ rw e (λ q. cc, (p, a))
    | inr e ↦ rw e (append-ne acc, All-append _ acc m a p)
  ]
    where
      append-ne : (xs : List (Master Addr)) → xs ++ m ∷ [] ≢ []
      append-ne [] q = cc
      append-ne (x ∷ xs) q = cc

  make_masters_from-EndsWell :
      (acc : List (Master Addr)) (cs : List (TransportConfig Addr)) (t : Table)
      → MadeFrom acc
      → All (IsMaster ids) cs
      → EndsWell
          (λ (made : List (Master Addr) × Table). MadeFrom made.0)
          (make_masters_from system exchange acc cs t)
  unfolding make_masters_from
  make_masters_from-EndsWell acc [] t a p = a
  make_masters_from-EndsWell acc (c ∷ cs) t a (p, ps) =
      EndsWell-bind _ _ (make_master system exchange c t) _ (make_master-EndsWell c t p)
        (λ made e q.
          make_masters_from-EndsWell (insert_master made.0 acc) cs made.1
            (insert_master-Routable made.0 acc a.1 q) ps)

  make_masters-EndsWell :
      (cs : List (TransportConfig Addr)) (t : Table)
      → cs ≢ []
      → All (IsMaster ids) cs
      → EndsWell
          (λ (made : List (Master Addr) × Table). MadeFrom made.0)
          (make_masters system exchange cs t)
  unfolding make_masters make_masters_from
  make_masters-EndsWell [] t n p = absurd (n refl)
  make_masters-EndsWell (c ∷ cs) t n (p, ps) =
      EndsWell-bind _ _ (make_master system exchange c t) _ (make_master-EndsWell c t p)
        (λ made e q.
          make_masters_from-EndsWell (insert_master made.0 []) cs made.1
            (insert_master-Routable made.0 [] tt q) ps)

  make_slave-EndsWell :
      (c : TransportConfig Addr) (t : Table)
      → IsSlave c
      → EndsWell (λ (made : Slave Addr × Table). Unit {0}) (make_slave system exchange c t)
  unfolding make_slave
  make_slave-EndsWell (tcp_server c) t p = elim (Option-cases (system.binds c.address c.port)) [
    | inl e ↦ rw e tt
    | inr (text, e) ↦ rw e tt
  ]
  make_slave-EndsWell (rtu_slave c) t p =
      elim (Option-cases (system.opens c.device c.rtu_options)) [
        | inl e ↦ rw e tt
        | inr (text, e) ↦ rw e tt
      ]
  make_slave-EndsWell (tcp_client c) t p = absurd p
  make_slave-EndsWell (rtu_master c) t p = absurd p

  append-ne : {A : Type 0} (xs : List A) (x : A) → xs ++ x ∷ [] ≢ []
  append-ne [] x q = cc
  append-ne (y ∷ ys) x q = cc

  make_slaves_from-EndsWell :
      (acc : List (Slave Addr)) (cs : List (TransportConfig Addr)) (t : Table)
      → acc ≢ []
      → All IsSlave cs
      → EndsWell
          (λ (made : List (Slave Addr) × Table). made.0 ≢ [])
          (make_slaves_from system exchange acc cs t)
  unfolding make_slaves_from
  make_slaves_from-EndsWell acc [] t a p = a
  make_slaves_from-EndsWell acc (c ∷ cs) t a (p, ps) =
      EndsWell-bind _ _ (make_slave system exchange c t) _ (make_slave-EndsWell c t p) (λ made e q.
        make_slaves_from-EndsWell (acc ++ made.0 ∷ []) cs made.1 (append-ne acc made.0) ps)

  make_slaves-EndsWell :
      (cs : List (TransportConfig Addr)) (t : Table)
      → cs ≢ []
      → All IsSlave cs
      → EndsWell
          (λ (made : List (Slave Addr) × Table). made.0 ≢ [])
          (make_slaves system exchange cs t)
  unfolding make_slaves make_slaves_from
  make_slaves-EndsWell [] t n p = absurd (n refl)
  make_slaves-EndsWell (c ∷ cs) t n (p, ps) =
      EndsWell-bind _ _ (make_slave system exchange c t) _ (make_slave-EndsWell c t p)
        (λ made e q. make_slaves_from-EndsWell (made.0 ∷ []) cs made.1 (append-ne [] made.0) ps)

  make_router-EndsWell :
      (ms : List (Master Addr)) (k : Option Router → Result (Gateway Addr Table))
      → MadeFrom ms
      → ((r : Router)
          → RoutesAll ids.limit exchange.default_id ms (ok (some r))
          → EndsWell (RoutesGateway exchange ids) (k (some r)))
      → EndsWell (RoutesGateway exchange ids) (make_router ids.limit exchange.default_id ms >>= k)
  make_router-EndsWell [] k (n, p) f = absurd (n refl)
  make_router-EndsWell (m ∷ ms) k (n, p) f =
      let (r, e, s, q) = make_router_lem ids.limit exchange.default_id m ms p in
      rw e (f r (r, refl, s, q))

  -- On usable lists of slaves and masters, ModbusGateway reaches the start of the slaves unless the
  -- system refuses a port or an address.
  pub start_gateway-EndsWell :
      (config : Config Addr) (t : Table)
      → (config.slaves ≢ []) × All IsSlave config.slaves
      → (config.masters ≢ []) × All (IsMaster ids) config.masters
      → EndsWell (RoutesGateway exchange ids) (start_gateway system exchange ids.limit config t)
  unfolding start_gateway
  start_gateway-EndsWell config t s m =
      EndsWell-bind _ _ (make_masters system exchange config.masters t) _
        (make_masters-EndsWell config.masters t m.0 m.1)
        (λ made e q.
          EndsWell-bind _ _ (throw_if (is_empty made.0) "BUG! masters is empty") _
            (EndsWell-nonempty made.0 "BUG! masters is empty" q.0)
            (λ u _ _. make_router-EndsWell made.0 _ q (λ r routes.
              EndsWell-bind _ _ (make_slaves system exchange config.slaves made.1) _
                (make_slaves-EndsWell config.slaves made.1 s.0 s.1)
                (λ served e' n.
                  EndsWell-bind _ _ (throw_if (is_empty served.0) "BUG! slaves is empty") _
                    (EndsWell-nonempty served.0 "BUG! slaves is empty" n)
                    (λ u' _ _. (n, routes))))))
