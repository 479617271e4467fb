-- ===== src/Config/Transports/Orderly.antt =====
-- The readers of the slaves and masters leave the path as they found it, and throw
-- only what a reader may throw, with the path to the key.
use Prim.Native.String.{String}
use modbus_gateway.Modbus.{FrameType, tcp, rtu, ascii, UnitIds}
use modbus_gateway.Config.Json.{Json, Asio}
use modbus_gateway.Config.Extract.Orderly.{Orderly}
use modbus_gateway.Config.Scalars.Orderly.{scalars}
use modbus_gateway.Config.Rtu.Orderly.{extract_rtu_options-Orderly}
use modbus_gateway.Config.Ranges.Orderly.{
  extract_unit_id_range_set-Orderly, extract_nonempty-Orderly,
}
use modbus_gateway.Config.Transports.{
  extract_master_config, extract_tcp_client_config, extract_rtu_master_config,
  extract_tcp_server_config, extract_rtu_slave_config, slave_of_type, extract_slave, extract_slaves,
  master_of_type, extract_master, extract_masters,
}

module _ {Value Float Addr : Type 0} (json : Json Value Float) (asio : Asio Addr)
    (ids : UnitIds) where
  extract_master_config-Orderly :
      (at : String) (obj : Value) → Orderly at (extract_master_config json asio ids obj)
  unfolding extract_master_config
  extract_master_config-Orderly at obj =
      search (scalars, extract_unit_id_range_set-Orderly) depth 12

  ruleset transports = (
    scalars, extract_master_config-Orderly, extract_rtu_options-Orderly, extract_nonempty-Orderly,
  )

  extract_tcp_client_config-Orderly :
      (at : String) (obj : Value) → Orderly at (extract_tcp_client_config json asio ids obj)
  unfolding extract_tcp_client_config
  extract_tcp_client_config-Orderly at obj = search transports depth 12

  extract_rtu_master_config-Orderly :
      (at : String) (obj : Value) (f : FrameType)
      → Orderly at (extract_rtu_master_config json asio ids obj f)
  unfolding extract_rtu_master_config
  extract_rtu_master_config-Orderly at obj f = search transports depth 12

  extract_tcp_server_config-Orderly :
      (at : String) (obj : Value) → Orderly at (extract_tcp_server_config json asio ids obj)
  unfolding extract_tcp_server_config
  extract_tcp_server_config-Orderly at obj = search transports depth 12

  extract_rtu_slave_config-Orderly :
      (at : String) (obj : Value) (f : FrameType)
      → Orderly at (extract_rtu_slave_config json asio ids obj f)
  unfolding extract_rtu_slave_config
  extract_rtu_slave_config-Orderly at obj f = search transports depth 12

  slave_of_type-Orderly :
      (at : String) (f : FrameType) (obj : Value) → Orderly at (slave_of_type json asio ids f obj)
  unfolding slave_of_type
  slave_of_type-Orderly at tcp obj = search (transports, extract_tcp_server_config-Orderly) depth 9
  slave_of_type-Orderly at rtu obj = search (transports, extract_rtu_slave_config-Orderly) depth 9
  slave_of_type-Orderly at ascii obj = search (transports, extract_rtu_slave_config-Orderly) depth 9

  extract_slave-Orderly : (at : String) (obj : Value) → Orderly at (extract_slave json asio ids obj)
  unfolding extract_slave
  extract_slave-Orderly at obj = search (transports, slave_of_type-Orderly) depth 9

  pub extract_slaves-Orderly :
      (at : String) (obj : Value) → Orderly at (extract_slaves json asio ids obj)
  unfolding extract_slaves
  extract_slaves-Orderly at obj = search (transports, extract_slave-Orderly) depth 12

  master_of_type-Orderly :
      (at : String) (f : FrameType) (obj : Value) → Orderly at (master_of_type json asio ids f obj)
  unfolding master_of_type
  master_of_type-Orderly at tcp obj = search (transports, extract_tcp_client_config-Orderly) depth 9
  master_of_type-Orderly at rtu obj = search (transports, extract_rtu_master_config-Orderly) depth 9
  master_of_type-Orderly at ascii obj =
      search (transports, extract_rtu_master_config-Orderly) depth 9

  extract_master-Orderly :
      (at : String) (obj : Value) → Orderly at (extract_master json asio ids obj)
  unfolding extract_master
  extract_master-Orderly at obj = search (transports, master_of_type-Orderly) depth 9

  pub extract_masters-Orderly :
      (at : String) (obj : Value) → Orderly at (extract_masters json asio ids obj)
  unfolding extract_masters
  extract_masters-Orderly at obj = search (transports, extract_master-Orderly) depth 12
