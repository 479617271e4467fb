-- ===== src/Config/Transports.antt =====
-- The configurations of the slaves and the masters: the constructors in src/config and the functions
-- ExtractSlave, ExtractSlaves, ExtractMaster and ExtractMasters of config/extractor.cpp.
pub mod Orderly
pub mod Kinds
pub mod Reads
use modbus_gateway.Config.Keys
use modbus_gateway.Base.{ℕ, Option, none, some, List, [], ◌∷◌}
use modbus_gateway.LimitQueue.{size_max}
use modbus_gateway.Modbus.{FrameType, tcp, rtu, ascii, UnitIds}
use modbus_gateway.Config.ValueType.{array}
use modbus_gateway.Config.Types.{
  MasterConfig, TcpClientConfig, RtuMasterConfig, TcpServerConfig, RtuSlaveConfig, TransportConfig,
  tcp_server, rtu_slave, tcp_client, rtu_master, UnitIdRange,
}
use modbus_gateway.Config.Json.{Json, Asio}
use modbus_gateway.Config.Extract.{Extract, ◌>>=◌, ◌>>◌, pure, trace_deep}
use modbus_gateway.Config.Scalars.{
  find_object, check_type, extract_string, extract_unsigned_number, extract_frame_type,
  extract_ip_address, extract_ip_address_optional, extract_ip_port,
}
use modbus_gateway.Config.Rtu.{extract_rtu_options}
use modbus_gateway.Config.Ranges.{extract_unit_id_range_set, extract_nonempty}

abbrev pub or_default {ℓ} : {A : Type ℓ} → A → Option A → A
or_default a none = a
or_default a (some b) = b

module _ {Value Float Addr : Type 0} (json : Json Value Float) (asio : Asio Addr)
    (ids : UnitIds) where
  -- MasterConfig
  unfoldable pub extract_master_config : Value → Extract MasterConfig
  extract_master_config obj = do
    timeout ← extract_unsigned_number json size_max obj Keys.timeout
    unit_id_set ← extract_unit_id_range_set json ids obj
    pure (record { timeout = timeout; unit_id_set = or_default [] unit_id_set })

  -- TcpClientConfig
  unfoldable pub extract_tcp_client_config : Value → Extract (TcpClientConfig Addr)
  extract_tcp_client_config obj = do
    master ← extract_master_config obj
    address ← extract_ip_address json asio obj
    port ← extract_ip_port json obj
    pure (record { master = master; address = address; port = port })

  -- RtuMasterConfig
  unfoldable pub extract_rtu_master_config : Value → FrameType → Extract RtuMasterConfig
  extract_rtu_master_config obj frame_type = do
    master ← extract_master_config obj
    device ← extract_string json obj Keys.device
    options ← extract_rtu_options json asio obj
    pure (record {
      master = master;
      device = device;
      rtu_options = options;
      frame_type = frame_type;
    })

  -- TcpServerConfig
  unfoldable pub extract_tcp_server_config : Value → Extract (TcpServerConfig Addr)
  extract_tcp_server_config obj = do
    address ← extract_ip_address_optional json asio obj
    port ← extract_ip_port json obj
    pure (record { address = or_default asio.any address; port = port })

  -- RtuSlaveConfig
  unfoldable pub extract_rtu_slave_config : Value → FrameType → Extract RtuSlaveConfig
  extract_rtu_slave_config obj frame_type = do
    device ← extract_string json obj Keys.device
    options ← extract_rtu_options json asio obj
    pure (record { device = device; rtu_options = options; frame_type = frame_type })

  -- The `switch` of ExtractSlave.
  slave_of_type : FrameType → Value → Extract (TransportConfig Addr)
  slave_of_type tcp obj = do config ← extract_tcp_server_config obj; pure (tcp_server config)
  slave_of_type rtu obj = do config ← extract_rtu_slave_config obj rtu; pure (rtu_slave config)
  slave_of_type ascii obj = do config ← extract_rtu_slave_config obj ascii; pure (rtu_slave config)

  unfoldable pub extract_slave : Value → Extract (TransportConfig Addr)
  unfolding slave_of_type
  extract_slave obj = do frame_type ← extract_frame_type json obj; slave_of_type frame_type obj

  unfoldable pub extract_slaves : Value → Extract (List (TransportConfig Addr))
  extract_slaves obj = trace_deep Keys.slaves (do
    slaves ← find_object json Keys.slaves obj
    check_type json Keys.slaves slaves array
    extract_nonempty Keys.slaves "slaves empty" extract_slave (json.items slaves))

  -- The `switch` of ExtractMaster.
  master_of_type : FrameType → Value → Extract (TransportConfig Addr)
  master_of_type tcp obj = do config ← extract_tcp_client_config obj; pure (tcp_client config)
  master_of_type rtu obj = do config ← extract_rtu_master_config obj rtu; pure (rtu_master config)
  master_of_type ascii obj = do
    config ← extract_rtu_master_config obj ascii
    pure (rtu_master config)

  unfoldable pub extract_master : Value → Extract (TransportConfig Addr)
  unfolding master_of_type
  extract_master obj = do frame_type ← extract_frame_type json obj; master_of_type frame_type obj

  unfoldable pub extract_masters : Value → Extract (List (TransportConfig Addr))
  extract_masters obj = trace_deep Keys.masters (do
    masters ← find_object json Keys.masters obj
    check_type json Keys.masters masters array
    extract_nonempty Keys.masters "masters empty" extract_master (json.items masters))
