-- ===== src/Network/Launch.antt =====
-- modbus_gateway.cpp: the actors that ModbusGateway made, at the moment when `context->run()` begins.
use modbus_gateway.Base.{ℕ, Option, none, some, List, [], ◌∷◌}
use modbus_gateway.Modbus.{Modbus}
use modbus_gateway.Exchange.{Exchange}
use modbus_gateway.Config.Types.{TransportConfig}
use modbus_gateway.Config.Types
use modbus_gateway.Gateway.{Master, Slave}
use modbus_gateway.Gateway.Startup.{Gateway}
use modbus_gateway.TcpClient
use modbus_gateway.RtuMaster
use modbus_gateway.RtuSlave
use modbus_gateway.TcpServer
use modbus_gateway.Network.{
  Actor, tcp_client, rtu_master, rtu_slave, tcp_server, World, update, act, put,
}

module _ {Addr Buf : Type 0} (default_id : ℕ) where
  -- The object that MakeMasters makes for a configuration, with the id that exchange->Add set on it.
  abbrev pub master_actor : ℕ → TransportConfig Addr → Option (Actor Buf)
  master_actor i (Types.tcp_client c) =
      some (tcp_client (TcpClient.set_id i (TcpClient.make_tcp_client default_id c.timeout)))
  master_actor i (Types.rtu_master c) = some (
      rtu_master (RtuMaster.set_id i (RtuMaster.make_rtu_master default_id c.timeout c.frame_type)))
  master_actor i (Types.tcp_server c) = none
  master_actor i (Types.rtu_slave c) = none

  -- The same of MakeSlaves.
  abbrev pub slave_actor : ℕ → TransportConfig Addr → Option (Actor Buf)
  slave_actor i (Types.tcp_server c) =
      some (tcp_server (TcpServer.set_id i (TcpServer.make_tcp_server default_id)))
  slave_actor i (Types.rtu_slave c) =
      some (rtu_slave (RtuSlave.set_id i (RtuSlave.make_rtu_slave default_id c.frame_type)))
  slave_actor i (Types.tcp_client c) = none
  slave_actor i (Types.rtu_master c) = none

  abbrev pub place_masters : List (Master Addr) → (ℕ → Option (Actor Buf)) → ℕ → Option (Actor Buf)
  place_masters [] f = f
  place_masters (m ∷ ms) f = place_masters ms (update f m.actor (master_actor m.actor m.config))

  abbrev pub place_slaves : List (Slave Addr) → (ℕ → Option (Actor Buf)) → ℕ → Option (Actor Buf)
  place_slaves [] f = f
  place_slaves (s ∷ ss) f = place_slaves ss (update f s.actor (slave_actor s.actor s.config))

module _ {Buf Table : Type 0} (modbus : Modbus Buf) (exchange : Exchange Table) where
  -- `slave.Slave->Start()`
  abbrev pub start_actor : ℕ → Actor Buf → World Buf Table → World Buf Table
  start_actor i (rtu_slave c) w =
      let (c', es) = RtuSlave.start modbus c in act i (rtu_slave c') es w
  start_actor i (tcp_server s) w =
      let (s', t, es) = TcpServer.start exchange s w.table in put i (tcp_server s') t w
  start_actor i _ w = w

  abbrev pub start_slave : ℕ → World Buf Table → World Buf Table
  start_slave i w = elim (w.actors i) [ none ↦ w | some a ↦ start_actor i a w ]

  -- `for (auto &slave : slaves)`
  abbrev pub start_slaves : {Addr : Type 0} → List (Slave Addr) → World Buf Table → World Buf Table
  start_slaves [] w = w
  start_slaves (s ∷ ss) w = start_slaves ss (start_slave s.actor w)

  unfoldable pub launch : {Addr : Type 0} → Gateway Addr Table → World Buf Table
  launch gateway = start_slaves gateway.slaves (record {
    table = gateway.table;
    actors =
        place_slaves exchange.default_id gateway.slaves
          (place_masters exchange.default_id gateway.masters (λ i. none));
    mail = [];
    log = [];
  })
