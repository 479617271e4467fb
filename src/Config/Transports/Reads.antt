-- ===== src/Config/Transports/Reads.antt =====
-- What the readers of the slaves and masters read from the documents of transports.
use Prim.Native.String.{String}
use modbus_gateway.Base.{
  ◌^◌, ◌≤◌, ◌<◌, ◌≡◌, ◌≢◌, refl, ap, Option, none, some, List, [], ◌∷◌, All, arith,
}
use modbus_gateway.LimitQueue.{size_max}
use modbus_gateway.Exception.{ok}
use modbus_gateway.Modbus.{FrameType, tcp, rtu, ascii, UnitIds}
use modbus_gateway.Config.Keys
use modbus_gateway.Config.Types.{
  MasterConfig, TransportConfig, tcp_server, rtu_slave, tcp_client, rtu_master, UnitIdRange,
  TcpServerConfig, RtuSlaveConfig, TcpClientConfig, RtuMasterConfig,
}
use modbus_gateway.Config.Json.{Json, Asio}
use modbus_gateway.Config.Extract.Reads.{Reads, Reads-pure, Reads-bind}
use modbus_gateway.Config.Print.{
  Builder, number, unit_ids, lookup, or_else, find-once, transport_members, transport_document,
}
use modbus_gateway.Config.Scalars.Reads.{extract_string-Reads, extract_unsigned_number-Reads}
use modbus_gateway.Config.Scalars.Words.{
  extract_frame_type-Reads, extract_ip_port-Reads, extract_ip_address_optional-Reads,
  extract_ip_address-Reads,
}
use modbus_gateway.Config.Scalars.Bounds.{IsPort}
use modbus_gateway.Config.Rtu.Reads.{IsLine, extract_rtu_options-Reads}
use modbus_gateway.Config.Ranges.Bounds.{IsRange}
use modbus_gateway.Config.Ranges.Reads.{read_ranges, extract_unit_id_range_set-Reads}
use modbus_gateway.Config.Transports.{
  extract_master_config, extract_tcp_client_config, extract_rtu_master_config,
  extract_tcp_server_config, extract_rtu_slave_config, slave_of_type, extract_slave, master_of_type,
  extract_master, or_default,
}

or_default-read_ranges : (rs : List UnitIdRange) → or_default [] (read_ranges rs) ≡ rs
or_default-read_ranges [] = refl
or_default-read_ranges (r ∷ rs) = refl

-- A frame type of a serial line.
abbrev pub IsSerial : FrameType → Type 0
IsSerial f = f ≢ tcp

module _ {Value Float Addr : Type 0} (json : Json Value Float) (builder : Builder json)
    (asio : Asio Addr) (ids : UnitIds) (show : Addr → String) where
  -- What a file can say of a slave.
  abbrev pub IsSlaveEntry : TransportConfig Addr → Type 0
  IsSlaveEntry (tcp_server c) = IsPort c.port
  IsSlaveEntry (rtu_slave c) = IsSerial c.frame_type × IsLine json builder asio c.rtu_options
  IsSlaveEntry _ = ⊥

  -- What a file can say of the timeout, a signed count of 64 bits, and the unit ids of a master.
  abbrev pub IsMasterEntry : MasterConfig → Type 0
  IsMasterEntry m = (m.timeout < 2 ^ 63) × All (IsRange ids) m.unit_id_set

  abbrev pub IsMasterTransport : TransportConfig Addr → Type 0
  IsMasterTransport (tcp_client c) = IsMasterEntry c.master × IsPort c.port
  IsMasterTransport (rtu_master c) =
      IsMasterEntry c.master × IsSerial c.frame_type × IsLine json builder asio c.rtu_options
  IsMasterTransport _ = ⊥

  module _ (shows : (a : Addr) → asio.make_address (show a) ≡ some a) (within : ids.max ≤ ids.limit)
      (limited : ids.limit < 2 ^ 64) where
    once :
        (c : TransportConfig Addr) (key : String) (o : Option Value)
        → lookup key (transport_members json builder show c) ≡ or_else o none
        → json.find key (transport_document json builder show c) ≡ o
    once c key o e = find-once json builder key (transport_members json builder show c) o e

    tcp_server-Reads :
        (c : TcpServerConfig Addr)
        → IsPort c.port
        → Reads
            (extract_tcp_server_config json asio ids
              (transport_document json builder show (tcp_server c)))
            c
    unfolding extract_tcp_server_config
    tcp_server-Reads c (l, h) =
        Reads-bind _ _ (some c.address) c
          (extract_ip_address_optional-Reads json builder asio _ (show c.address) c.address
            (once (tcp_server c) Keys.ip_address _ refl) (shows c.address))
          (Reads-bind _ _ c.port c
            (extract_ip_port-Reads json builder _ c.port (once (tcp_server c) Keys.ip_port _ refl) l
              h)
            (Reads-pure c))

    rtu_slave-Reads :
        (c : RtuSlaveConfig)
        → IsLine json builder asio c.rtu_options
        → Reads
            (extract_rtu_slave_config json asio ids
              (transport_document json builder show (rtu_slave c))
              c.frame_type)
            c
    unfolding extract_rtu_slave_config
    rtu_slave-Reads c line =
        Reads-bind _ _ c.device c
          (extract_string-Reads json builder _ Keys.device c.device
            (once (rtu_slave c) Keys.device _ refl))
          (Reads-bind _ _ c.rtu_options c
            (extract_rtu_options-Reads json builder asio _ c.rtu_options line (
              once (rtu_slave c) Keys.baud_rate _ refl,
              once (rtu_slave c) Keys.character_size _ refl,
              once (rtu_slave c) Keys.parity _ refl,
              once (rtu_slave c) Keys.stop_bits _ refl,
              once (rtu_slave c) Keys.flow_control _ refl,
              once (rtu_slave c) Keys.rs485 _ refl,
            ))
            (Reads-pure c))

    master_config-Reads :
        (obj : Value) (m : MasterConfig)
        → json.find Keys.timeout obj ≡ number json builder m.timeout
        → json.find Keys.unit_id_set obj ≡ unit_ids json builder m.unit_id_set
        → IsMasterEntry m
        → Reads (extract_master_config json asio ids obj) m
    unfolding extract_master_config
    master_config-Reads obj m t u (limit, ranges) =
        Reads-bind _ _ m.timeout m
          (extract_unsigned_number-Reads json builder size_max obj Keys.timeout m.timeout t
            (omega (arith, limit)) (omega (arith, limit)))
          (Reads-bind _ _ (read_ranges m.unit_id_set) m
            (extract_unit_id_range_set-Reads json builder ids within limited obj m.unit_id_set u
              ranges)
            (λ path.
              ap (λ rs. (ok (record { timeout = m.timeout; unit_id_set = rs }), path))
                (or_default-read_ranges m.unit_id_set)))

    tcp_client-Reads :
        (c : TcpClientConfig Addr)
        → IsMasterTransport (tcp_client c)
        → Reads
            (extract_tcp_client_config json asio ids
              (transport_document json builder show (tcp_client c)))
            c
    unfolding extract_tcp_client_config
    tcp_client-Reads c (m, (l, h)) =
        Reads-bind _ _ c.master c
          (master_config-Reads _ c.master (once (tcp_client c) Keys.timeout _ refl)
            (once (tcp_client c) Keys.unit_id_set _ refl) m)
          (Reads-bind _ _ c.address c
            (extract_ip_address-Reads json builder asio _ (show c.address) c.address
              (once (tcp_client c) Keys.ip_address _ refl) (shows c.address))
            (Reads-bind _ _ c.port c
              (extract_ip_port-Reads json builder _ c.port (once (tcp_client c) Keys.ip_port _ refl)
                l h)
              (Reads-pure c)))

    rtu_master-Reads :
        (c : RtuMasterConfig)
        → IsMasterTransport (rtu_master c)
        → Reads
            (extract_rtu_master_config json asio ids
              (transport_document json builder show (rtu_master c))
              c.frame_type)
            c
    unfolding extract_rtu_master_config
    rtu_master-Reads c (m, serial, line) =
        Reads-bind _ _ c.master c
          (master_config-Reads _ c.master (once (rtu_master c) Keys.timeout _ refl)
            (once (rtu_master c) Keys.unit_id_set _ refl) m)
          (Reads-bind _ _ c.device c
            (extract_string-Reads json builder _ Keys.device c.device
              (once (rtu_master c) Keys.device _ refl))
            (Reads-bind _ _ c.rtu_options c
              (extract_rtu_options-Reads json builder asio _ c.rtu_options line (
                once (rtu_master c) Keys.baud_rate _ refl,
                once (rtu_master c) Keys.character_size _ refl,
                once (rtu_master c) Keys.parity _ refl,
                once (rtu_master c) Keys.stop_bits _ refl,
                once (rtu_master c) Keys.flow_control _ refl,
                once (rtu_master c) Keys.rs485 _ refl,
              ))
              (Reads-pure c)))

    -- The `switch` of ExtractSlave for the two kinds of serial line.
    serial_slave-Reads :
        (f : FrameType) (obj : Value) (c : RtuSlaveConfig)
        → IsSerial f
        → Reads (extract_rtu_slave_config json asio ids obj f) c
        → Reads (slave_of_type json asio ids f obj) (rtu_slave c)
    unfolding slave_of_type
    serial_slave-Reads tcp obj c serial r = absurd (serial refl)
    serial_slave-Reads rtu obj c serial r =
        Reads-bind _ _ c (rtu_slave c) r (Reads-pure (rtu_slave c))
    serial_slave-Reads ascii obj c serial r =
        Reads-bind _ _ c (rtu_slave c) r (Reads-pure (rtu_slave c))

    serial_master-Reads :
        (f : FrameType) (obj : Value) (c : RtuMasterConfig)
        → IsSerial f
        → Reads (extract_rtu_master_config json asio ids obj f) c
        → Reads (master_of_type json asio ids f obj) (rtu_master c)
    unfolding master_of_type
    serial_master-Reads tcp obj c serial r = absurd (serial refl)
    serial_master-Reads rtu obj c serial r =
        Reads-bind _ _ c (rtu_master c) r (Reads-pure (rtu_master c))
    serial_master-Reads ascii obj c serial r =
        Reads-bind _ _ c (rtu_master c) r (Reads-pure (rtu_master c))

    pub extract_slave-Reads :
        (c : TransportConfig Addr)
        → IsSlaveEntry c
        → Reads (extract_slave json asio ids (transport_document json builder show c)) c
    unfolding extract_slave slave_of_type
    extract_slave-Reads (tcp_server c) p =
        Reads-bind _ _ tcp (tcp_server c)
          (extract_frame_type-Reads json builder _ tcp (once (tcp_server c) Keys.frame_type _ refl))
          (Reads-bind _ _ c (tcp_server c) (tcp_server-Reads c p) (Reads-pure (tcp_server c)))
    extract_slave-Reads (rtu_slave c) (serial, line) =
        Reads-bind _ _ c.frame_type (rtu_slave c)
          (extract_frame_type-Reads json builder _ c.frame_type
            (once (rtu_slave c) Keys.frame_type _ refl))
          (serial_slave-Reads c.frame_type _ c serial (rtu_slave-Reads c line))
    extract_slave-Reads (tcp_client c) p = absurd p
    extract_slave-Reads (rtu_master c) p = absurd p

    pub extract_master-Reads :
        (c : TransportConfig Addr)
        → IsMasterTransport c
        → Reads (extract_master json asio ids (transport_document json builder show c)) c
    unfolding extract_master master_of_type
    extract_master-Reads (tcp_client c) p =
        Reads-bind _ _ tcp (tcp_client c)
          (extract_frame_type-Reads json builder _ tcp (once (tcp_client c) Keys.frame_type _ refl))
          (Reads-bind _ _ c (tcp_client c) (tcp_client-Reads c p) (Reads-pure (tcp_client c)))
    extract_master-Reads (rtu_master c) p =
        Reads-bind _ _ c.frame_type (rtu_master c)
          (extract_frame_type-Reads json builder _ c.frame_type
            (once (rtu_master c) Keys.frame_type _ refl))
          (serial_master-Reads c.frame_type _ c p.1 (rtu_master-Reads c p))
    extract_master-Reads (tcp_server c) p = absurd p
    extract_master-Reads (rtu_slave c) p = absurd p
