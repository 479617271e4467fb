-- ===== src/Network/Started.antt =====
-- The gateway at its start: what was placed and started keeps to the routing table.
use modbus_gateway.Base.{
  ℕ, ◌≡◌, refl, subst, Bool, true, false, Option, none, some, List, [], ◌∷◌, All, Option-cases, inl,
  inr,
}
use modbus_gateway.Modbus.{Modbus}
use modbus_gateway.Exchange.{Exchange}
use modbus_gateway.Router.{Router}
use modbus_gateway.Config.Types
use modbus_gateway.Config.Types.{TransportConfig}
use modbus_gateway.Gateway.{Master, Slave}
use modbus_gateway.Gateway.Slaves.{Holds}
use modbus_gateway.Gateway.Startup.{Gateway}
use modbus_gateway.TcpClient
use modbus_gateway.RtuMaster
use modbus_gateway.RtuSlave
use modbus_gateway.RtuSlave.Routed.{start-Keeps}
use modbus_gateway.TcpServer
use modbus_gateway.LimitQueue.{unlimited}
use modbus_gateway.Network.{Actor, rtu_slave, tcp_server, World}
use modbus_gateway.Network.Launch.{
  master_actor, slave_actor, place_masters, place_slaves, start_actor, start_slave, start_slaves,
  launch,
}
use modbus_gateway.Network.Invariant.{IsRight, IsRouted, update-IsRight, act-IsRouted, put-IsRouted}

module _ {Buf Table : Type 0} (modbus : Modbus Buf) (exchange : Exchange Table) (router : Router)
    (is_master : ℕ → Bool) (Past : Type 0) where
  abbrev AllRight : (ℕ → Option (Actor Buf)) → Type 0
  AllRight f =
      (i : ℕ) (a : Actor Buf) → f i ≡ some a → IsRight modbus exchange router is_master Past i a

  some-injective : {a b : Actor Buf} → some a ≡ some b → a ≡ b
  some-injective e = cc

  master_actor-IsRight :
      {Addr : Type 0} (i : ℕ) (c : TransportConfig Addr) (a : Actor Buf)
      → is_master i ≡ true
      → master_actor exchange.default_id i c ≡ some a
      → IsRight modbus exchange router is_master Past i a
  unfolding TcpClient.set_id TcpClient.make_tcp_client RtuMaster.set_id RtuMaster.make_rtu_master
      unlimited
  master_actor-IsRight i (Types.tcp_client c) a m e =
      subst (IsRight modbus exchange router is_master Past i) (some-injective e) (m, (tt, tt))
  master_actor-IsRight i (Types.rtu_master c) a m e =
      subst (IsRight modbus exchange router is_master Past i) (some-injective e) (m, (tt, tt))
  master_actor-IsRight i (Types.tcp_server c) a m e = cc
  master_actor-IsRight i (Types.rtu_slave c) a m e = cc

  slave_actor-IsRight :
      {Addr : Type 0} (i : ℕ) (c : TransportConfig Addr) (a : Actor Buf)
      → is_master i ≡ false
      → slave_actor exchange.default_id i c ≡ some a
      → IsRight modbus exchange router is_master Past i a
  unfolding RtuSlave.set_id
  slave_actor-IsRight i (Types.tcp_server c) a m e =
      subst (IsRight modbus exchange router is_master Past i) (some-injective e) m
  slave_actor-IsRight i (Types.rtu_slave c) a m e =
      subst (IsRight modbus exchange router is_master Past i) (some-injective e) (refl, m)
  slave_actor-IsRight i (Types.tcp_client c) a m e = cc
  slave_actor-IsRight i (Types.rtu_master c) a m e = cc

  place_masters-AllRight :
      {Addr : Type 0} (ms : List (Master Addr)) (f : ℕ → Option (Actor Buf))
      → All (λ m. is_master m.actor ≡ true) ms
      → AllRight f
      → AllRight (place_masters exchange.default_id ms f)
  place_masters-AllRight [] f h r = r
  place_masters-AllRight (m ∷ ms) f (here, h) r = place_masters-AllRight ms _ h (
      update-IsRight modbus exchange router is_master Past f m.actor _ r
        (λ a. master_actor-IsRight m.actor m.config a here))

  place_slaves-AllRight :
      {Addr : Type 0} (ss : List (Slave Addr)) (f : ℕ → Option (Actor Buf))
      → All (λ s. is_master s.actor ≡ false) ss
      → AllRight f
      → AllRight (place_slaves exchange.default_id ss f)
  place_slaves-AllRight [] f h r = r
  place_slaves-AllRight (s ∷ ss) f (here, h) r = place_slaves-AllRight ss _ h (
      update-IsRight modbus exchange router is_master Past f s.actor _ r
        (λ a. slave_actor-IsRight s.actor s.config a here))

  start_actor-IsRouted :
      (i : ℕ) (a : Actor Buf) (w : World Buf Table)
      → IsRouted modbus exchange router is_master Past w
      → IsRight modbus exchange router is_master Past i a
      → IsRouted modbus exchange router is_master Past (start_actor modbus exchange i a w)
  unfolding TcpServer.start
  start_actor-IsRouted i (rtu_slave c) w v r =
      let (r', es) = start-Keeps modbus router is_master Past i c r in
      act-IsRouted modbus exchange router is_master Past i _ _ w v r' es
  start_actor-IsRouted i (tcp_server s) w v r =
      put-IsRouted modbus exchange router is_master Past i s w.table w v r v.registered
  start_actor-IsRouted i _ w v r = v

  start_slaves-IsRouted :
      {Addr : Type 0} (ss : List (Slave Addr)) (w : World Buf Table)
      → IsRouted modbus exchange router is_master Past w
      → IsRouted modbus exchange router is_master Past (start_slaves modbus exchange ss w)
  start_slaves-IsRouted [] w v = v
  start_slaves-IsRouted (s ∷ ss) w v =
      start_slaves-IsRouted ss (start_slave modbus exchange s.actor w) started
    where
      started :
          IsRouted modbus exchange router is_master Past (start_slave modbus exchange s.actor w)
      started = elim (Option-cases (w.actors s.actor)) [
        | inl e ↦ rw (start_slave, e) v
        | inr (a, e) ↦
            rw (start_slave, e) (start_actor-IsRouted s.actor a w v (v.actors s.actor a e))
      ]

  pub launch-IsRouted :
      {Addr : Type 0} (gateway : Gateway Addr Table)
      → All (λ m. is_master m.actor ≡ true) gateway.masters
      → All (λ s. is_master s.actor ≡ false) gateway.slaves
      → Holds exchange is_master gateway.table
      → IsRouted modbus exchange router is_master Past (launch modbus exchange gateway)
  unfolding launch
  launch-IsRouted gateway m s r = start_slaves-IsRouted gateway.slaves _ (record {
    registered = r;
    actors =
        place_slaves-AllRight gateway.slaves _ s
          (place_masters-AllRight gateway.masters (λ i. none) m (λ i a e. cc));
    mail = tt;
    log = tt;
  })
