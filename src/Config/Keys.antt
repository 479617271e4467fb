-- ===== src/Config/Keys.antt =====
-- config/keys.h: the keys of the configuration file.
use Prim.Native.String.{String}

-- sections
abbrev pub service : String
service = "service"

abbrev pub slaves : String
slaves = "slaves"

abbrev pub masters : String
masters = "masters"

-- service
abbrev pub version : String
version = "version"

abbrev pub log_level : String
log_level = "log_level"

abbrev pub threads : String
threads = "threads"

-- common
abbrev pub frame_type : String
frame_type = "frame_type"

abbrev pub timeout : String
timeout = "timeout_ms"

-- tcp
abbrev pub ip_address : String
ip_address = "ip_address"

abbrev pub ip_port : String
ip_port = "ip_port"

-- rtu
abbrev pub device : String
device = "device"

abbrev pub baud_rate : String
baud_rate = "baud_rate"

abbrev pub character_size : String
character_size = "character_size"

abbrev pub parity : String
parity = "parity"

abbrev pub stop_bits : String
stop_bits = "stop_bits"

abbrev pub flow_control : String
flow_control = "flow_control"

abbrev pub rs485 : String
rs485 = "rs485"

abbrev pub rts_on_send : String
rts_on_send = "rts_on_send"

abbrev pub rts_after_send : String
rts_after_send = "rts_after_send"

abbrev pub rx_during_tx : String
rx_during_tx = "rx_during_tx"

abbrev pub terminate_bus : String
terminate_bus = "terminate_bus"

abbrev pub delay_rts_before_send : String
delay_rts_before_send = "delay_rts_before_send"

abbrev pub delay_rts_after_send : String
delay_rts_after_send = "delay_rts_after_send"

-- unit id
abbrev pub unit_id_set : String
unit_id_set = "unit_id"

abbrev pub numeric_range_type : String
numeric_range_type = "type"

abbrev pub numeric_range_value : String
numeric_range_value = "value"

abbrev pub numeric_range_begin : String
numeric_range_begin = "begin"

abbrev pub numeric_range_end : String
numeric_range_end = "end"
