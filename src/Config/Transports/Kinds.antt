-- ===== src/Config/Transports/Kinds.antt =====
-- Which transports are read as slaves and as masters, and what their numbers are.
use modbus_gateway.Base.{◌≢◌, Option, none, some, List, [], All}
use modbus_gateway.LimitQueue.{size_max}
use modbus_gateway.Modbus.{FrameType, tcp, rtu, ascii, UnitIds}
use modbus_gateway.Config.ValueType.{array}
use modbus_gateway.Config.Types.{
  MasterConfig, TcpClientConfig, RtuMasterConfig, TcpServerConfig, TransportConfig, tcp_server,
  rtu_slave, tcp_client, rtu_master, UnitIdRange,
}
use modbus_gateway.Config.Json.{Json, Asio}
use modbus_gateway.Config.Extract.Ensures.{
  Ensures, Ensures-pure, Ensures-trace_deep, Ensures-bind, Ensures-any,
}
use modbus_gateway.Config.Scalars.{
  find_object, check_type, extract_string, extract_unsigned_number, extract_frame_type,
  extract_ip_address, extract_ip_address_optional,
}
use modbus_gateway.Config.Scalars.Bounds.{IsPort, extract_ip_port-Ensures}
use modbus_gateway.Config.Rtu.{extract_rtu_options}
use modbus_gateway.Config.Ranges.Bounds.{
  IsRange, IsRangeSet, extract_nonempty-Ensures, extract_unit_id_range_set-Ensures,
}
use modbus_gateway.Config.Transports.{
  extract_master_config, extract_tcp_client_config, extract_rtu_master_config,
  extract_tcp_server_config, extract_rtu_slave_config, slave_of_type, extract_slave, extract_slaves,
  master_of_type, extract_master, extract_masters, or_default,
}

-- The transports of the two lists, with the numbers that they may have.
abbrev pub IsSlave : {Addr : Type 0} → TransportConfig Addr → Type 0
IsSlave (tcp_server c) = IsPort c.port
IsSlave (rtu_slave c) = Unit
IsSlave _ = ⊥

abbrev pub IsMaster : {Addr : Type 0} → UnitIds → TransportConfig Addr → Type 0
IsMaster ids (tcp_client c) = IsPort c.port × All (IsRange ids) c.unit_id_set
IsMaster ids (rtu_master c) = All (IsRange ids) c.unit_id_set
IsMaster ids _ = ⊥

-- The two lists.
abbrev pub AreSlaves : {Addr : Type 0} → List (TransportConfig Addr) → Type 0
AreSlaves cs = (cs ≢ []) × All IsSlave cs

abbrev pub AreMasters : {Addr : Type 0} → UnitIds → List (TransportConfig Addr) → Type 0
AreMasters ids cs = (cs ≢ []) × All (IsMaster ids) cs

module _ {Value Float Addr : Type 0} (json : Json Value Float) (asio : Asio Addr)
    (ids : UnitIds) where
  abbrev HasRanges : MasterConfig → Type 0
  HasRanges c = All (IsRange ids) c.unit_id_set

  or_default-ranges :
      (set : Option (List UnitIdRange))
      → IsRangeSet json ids set
      → All (IsRange ids) (or_default [] set)
  or_default-ranges none p = tt
  or_default-ranges (some rs) p = p.1

  extract_master_config-Ensures :
      (obj : Value) → Ensures HasRanges (extract_master_config json asio ids obj)
  unfolding extract_master_config
  extract_master_config-Ensures obj =
      Ensures-bind HasRanges (λ _. Unit {0}) _ _
        (Ensures-any (extract_unsigned_number json size_max obj "timeout_ms"))
        (λ timeout _.
          Ensures-bind HasRanges (IsRangeSet json ids) _ _
            (extract_unit_id_range_set-Ensures json ids obj)
            (λ set p. Ensures-pure HasRanges _ (or_default-ranges set p)))

  abbrev IsTcpClient : TcpClientConfig Addr → Type 0
  IsTcpClient c = IsPort c.port × All (IsRange ids) c.unit_id_set

  extract_tcp_client_config-Ensures :
      (obj : Value) → Ensures IsTcpClient (extract_tcp_client_config json asio ids obj)
  unfolding extract_tcp_client_config
  extract_tcp_client_config-Ensures obj =
      Ensures-bind IsTcpClient HasRanges _ _ (extract_master_config-Ensures obj) (λ master p.
        Ensures-bind IsTcpClient (λ _. Unit {0}) _ _
          (Ensures-any (extract_ip_address json asio obj))
          (λ address _.
            Ensures-bind IsTcpClient IsPort _ _ (extract_ip_port-Ensures json obj)
              (λ port q. Ensures-pure IsTcpClient _ (q, p))))

  abbrev IsRtuMaster : RtuMasterConfig → Type 0
  IsRtuMaster c = All (IsRange ids) c.unit_id_set

  extract_rtu_master_config-Ensures :
      (obj : Value) (f : FrameType)
      → Ensures IsRtuMaster (extract_rtu_master_config json asio ids obj f)
  unfolding extract_rtu_master_config
  extract_rtu_master_config-Ensures obj f =
      Ensures-bind IsRtuMaster HasRanges _ _ (extract_master_config-Ensures obj) (λ master p.
        Ensures-bind IsRtuMaster (λ _. Unit {0}) _ _
          (Ensures-any (extract_string json obj "device"))
          (λ device _.
            Ensures-bind IsRtuMaster (λ _. Unit {0}) _ _
              (Ensures-any (extract_rtu_options json asio obj))
              (λ options _. Ensures-pure IsRtuMaster _ p)))

  abbrev IsTcpServer : TcpServerConfig Addr → Type 0
  IsTcpServer c = IsPort c.port

  extract_tcp_server_config-Ensures :
      (obj : Value) → Ensures IsTcpServer (extract_tcp_server_config json asio ids obj)
  unfolding extract_tcp_server_config
  extract_tcp_server_config-Ensures obj =
      Ensures-bind IsTcpServer (λ _. Unit {0}) _ _
        (Ensures-any (extract_ip_address_optional json asio obj))
        (λ address _.
          Ensures-bind IsTcpServer IsPort _ _ (extract_ip_port-Ensures json obj)
            (λ port q. Ensures-pure IsTcpServer _ q))

  master_of_type-Ensures :
      (f : FrameType) (obj : Value) → Ensures (IsMaster ids) (master_of_type json asio ids f obj)
  unfolding master_of_type
  master_of_type-Ensures tcp obj =
      Ensures-bind (IsMaster ids) IsTcpClient _ _ (extract_tcp_client_config-Ensures obj)
        (λ c p. Ensures-pure (IsMaster ids) (tcp_client c) p)
  master_of_type-Ensures rtu obj =
      Ensures-bind (IsMaster ids) IsRtuMaster _ _ (extract_rtu_master_config-Ensures obj rtu)
        (λ c p. Ensures-pure (IsMaster ids) (rtu_master c) p)
  master_of_type-Ensures ascii obj =
      Ensures-bind (IsMaster ids) IsRtuMaster _ _ (extract_rtu_master_config-Ensures obj ascii)
        (λ c p. Ensures-pure (IsMaster ids) (rtu_master c) p)

  extract_master-Ensures : (obj : Value) → Ensures (IsMaster ids) (extract_master json asio ids obj)
  unfolding extract_master
  extract_master-Ensures obj =
      Ensures-bind (IsMaster ids) (λ _. Unit {0}) _ _ (Ensures-any (extract_frame_type json obj))
        (λ f _. master_of_type-Ensures f obj)

  slave_of_type-Ensures :
      (f : FrameType) (obj : Value) → Ensures IsSlave (slave_of_type json asio ids f obj)
  unfolding slave_of_type
  slave_of_type-Ensures tcp obj =
      Ensures-bind IsSlave IsTcpServer _ _ (extract_tcp_server_config-Ensures obj)
        (λ c p. Ensures-pure IsSlave (tcp_server c) p)
  slave_of_type-Ensures rtu obj =
      Ensures-bind IsSlave (λ _. Unit {0}) _ _
        (Ensures-any (extract_rtu_slave_config json asio ids obj rtu))
        (λ c _. Ensures-pure IsSlave (rtu_slave c) tt)
  slave_of_type-Ensures ascii obj =
      Ensures-bind IsSlave (λ _. Unit {0}) _ _
        (Ensures-any (extract_rtu_slave_config json asio ids obj ascii))
        (λ c _. Ensures-pure IsSlave (rtu_slave c) tt)

  extract_slave-Ensures : (obj : Value) → Ensures IsSlave (extract_slave json asio ids obj)
  unfolding extract_slave
  extract_slave-Ensures obj =
      Ensures-bind IsSlave (λ _. Unit {0}) _ _ (Ensures-any (extract_frame_type json obj))
        (λ f _. slave_of_type-Ensures f obj)

  pub extract_slaves-Ensures : (obj : Value) → Ensures AreSlaves (extract_slaves json asio ids obj)
  unfolding extract_slaves
  extract_slaves-Ensures obj = Ensures-trace_deep AreSlaves "slaves" _ (
      Ensures-bind AreSlaves (λ _. Unit {0}) _ _ (Ensures-any (find_object json "slaves" obj))
        (λ v _.
          Ensures-bind AreSlaves (λ _. Unit {0}) _ _
            (Ensures-any (check_type json "slaves" v array))
            (λ _ _.
              extract_nonempty-Ensures IsSlave (extract_slave json asio ids) extract_slave-Ensures
                "slaves" "slaves empty" (json.items v))))

  pub extract_masters-Ensures :
      (obj : Value) → Ensures (AreMasters ids) (extract_masters json asio ids obj)
  unfolding extract_masters
  extract_masters-Ensures obj = Ensures-trace_deep (AreMasters ids) "masters" _ (
      Ensures-bind (AreMasters ids) (λ _. Unit {0}) _ _
        (Ensures-any (find_object json "masters" obj))
        (λ v _.
          Ensures-bind (AreMasters ids) (λ _. Unit {0}) _ _
            (Ensures-any (check_type json "masters" v array))
            (λ _ _.
              extract_nonempty-Ensures (IsMaster ids) (extract_master json asio ids)
                extract_master-Ensures "masters" "masters empty" (json.items v))))
