-- ===== src/Config/Types.antt =====
-- The records of src/config: what a configuration holds once it is read. IP addresses are asio's,
-- so their type is a parameter.
use Prim.Native.String.{String}
use modbus_gateway.Base.{ℕ, Bool, Option, List}
use modbus_gateway.Modbus.{FrameType}

-- transport/include/transport/transport_type.h
pub data TransportType : Type 0 where
  tcp_server rtu_slave tcp_client rtu_master : TransportType

-- The enumerations of asio::serial_port_base, with the values that the program names.
pub data Parity : Type 0 where
  none odd even : Parity

pub data StopBits : Type 0 where
  one onepointfive two : StopBits

pub data FlowControl : Type 0 where
  none software hardware : FlowControl

-- transport/include/transport/rtu_options.h
pub record Rs485 : Type 0 where
  pub rts_on_send : Option Bool
  pub rts_after_send : Option Bool
  pub rx_during_tx : Option Bool
  pub terminate_bus : Option Bool
  pub delay_rts_before_send : Option ℕ
  pub delay_rts_after_send : Option ℕ

pub record RtuOptions : Type 0 where
  pub baud_rate : ℕ
  pub character_size : ℕ
  pub parity : Parity
  pub stop_bits : StopBits
  pub flow_control : FlowControl
  pub rs485 : Option Rs485

-- config/include/config/unit_id_range.h
pub record UnitIdRange : Type 0 where
  pub begin : ℕ
  pub end : ℕ

-- config/include/config/master_config.h; the timeout in milliseconds. The count of
-- std::chrono::milliseconds is signed: a number from 2 ^ 63 on stands for the negative count with the
-- same 64 bits.
pub record MasterConfig : Type 0 where
  pub timeout : ℕ
  pub unit_id_set : List UnitIdRange

pub record TcpClientConfig (Addr : Type 0) : Type 0 where
  pub master : MasterConfig
  pub open master use *
  pub address : Addr
  pub port : ℕ

pub record RtuMasterConfig : Type 0 where
  pub master : MasterConfig
  pub open master use *
  pub device : String
  pub rtu_options : RtuOptions
  pub frame_type : FrameType

pub record TcpServerConfig (Addr : Type 0) : Type 0 where
  pub address : Addr
  pub port : ℕ

pub record RtuSlaveConfig : Type 0 where
  pub device : String
  pub rtu_options : RtuOptions
  pub frame_type : FrameType

-- A pointer to ITransportConfig: one constructor for each class, so that a `dynamic_pointer_cast`
-- to the class that `GetType` names never fails.
pub data TransportConfig (Addr : Type 0) : Type 0 where
  tcp_server : TcpServerConfig Addr → TransportConfig Addr
  rtu_slave : RtuSlaveConfig → TransportConfig Addr
  tcp_client : TcpClientConfig Addr → TransportConfig Addr
  rtu_master : RtuMasterConfig → TransportConfig Addr

unfoldable pub get_type : {Addr : Type 0} → TransportConfig Addr → TransportType
get_type (TransportConfig.tcp_server c) = TransportType.tcp_server
get_type (TransportConfig.rtu_slave c) = TransportType.rtu_slave
get_type (TransportConfig.tcp_client c) = TransportType.tcp_client
get_type (TransportConfig.rtu_master c) = TransportType.rtu_master

-- `dynamic_pointer_cast<MasterConfig>`
abbrev pub as_master : {Addr : Type 0} → TransportConfig Addr → Option MasterConfig
as_master (TransportConfig.tcp_client c) = Option.some c.master
as_master (TransportConfig.rtu_master c) = Option.some c.master
as_master _ = Option.none
