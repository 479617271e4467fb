-- ===== src/SerialOptions/Laws.antt =====
-- What SetOptions leaves in the port.
use Prim.Native.String.{String}
use Prim.Native.String
use modbus_gateway.Base.{◌≡◌, refl, Option, none, some, List, [], ◌∷◌}
use modbus_gateway.Exception.{Exception, runtime_error, system_error, Result, ok, throws, ◌>>◌}
use modbus_gateway.Config.Types.{Rs485, RtuOptions}
use modbus_gateway.SerialOptions.Flags.{AreDistinct, FlagsFollow, update_rs485-flags}
use modbus_gateway.SerialOptions.{
  Rs485Bits, SerialRs485, SerialPort, Driver, value_or, update_rs485, unless, set_rs485,
  set_options,
}

abbrev pub cannot_get : String → Exception
cannot_get text = runtime_error (String.◌++◌ "get rs485 options error: " text)

abbrev pub cannot_set : String → Exception
cannot_set text = runtime_error (String.◌++◌ "set rs485 options error: " text)

-- The first refusal of a list.
abbrev pub first : List (Option String) → Option String
first [] = none
first (none ∷ os) = first os
first (some text ∷ os) = some text

-- The result is the exception with the text, if there is one, and otherwise as described.
abbrev pub Stops :
    Option String → (String → Exception) → (Result SerialPort → Type 0) → Result SerialPort → Type 0
Stops none thrown P r = P r
Stops (some text) thrown P r = r ≡ throws (thrown text)

unless-Stops :
    (o : Option String) (thrown : String → Exception) (P : Result SerialPort → Type 0)
    (next : Result SerialPort)
    → P next
    → Stops o thrown P (unless o thrown >> next)
unless-Stops none thrown P next p = p
unless-Stops (some text) thrown P next p = refl

five-Stops :
    (a b c d e : Option String) (P : Result SerialPort → Type 0) (next : Result SerialPort)
    → P next
    → Stops (first (a ∷ b ∷ c ∷ d ∷ e ∷ [])) system_error P (
        unless a system_error
        >> (unless b system_error
            >> (unless c system_error
                >> (unless d system_error >> (unless e system_error >> next)))))
five-Stops (some text) b c d e P next p = refl
five-Stops none (some text) c d e P next p = refl
five-Stops none none (some text) d e P next p = refl
five-Stops none none none (some text) e P next p = refl
five-Stops none none none none (some text) P next p = refl
five-Stops none none none none none P next p = p

module _ (driver : Driver) (bits : Rs485Bits) (o : RtuOptions) (port : SerialPort) where
  -- What asio and the driver say to the five options: each on the port as the options before it have
  -- left it.
  abbrev pub refused_baud_rate : Option String
  refused_baud_rate = driver.refuses_baud_rate port o.baud_rate

  abbrev pub refused_character_size : Option String
  refused_character_size =
      driver.refuses_character_size (record port { baud_rate = o.baud_rate }) o.character_size

  abbrev pub refused_parity : Option String
  refused_parity =
      driver.refuses_parity
        (record port { baud_rate = o.baud_rate; character_size = o.character_size }) o.parity

  abbrev pub refused_stop_bits : Option String
  refused_stop_bits =
      driver.refuses_stop_bits
        (record port {
          baud_rate = o.baud_rate;
          character_size = o.character_size;
          parity = o.parity;
        })
        o.stop_bits

  abbrev pub refused_flow_control : Option String
  refused_flow_control =
      driver.refuses_flow_control
        (record port {
          baud_rate = o.baud_rate;
          character_size = o.character_size;
          parity = o.parity;
          stop_bits = o.stop_bits;
        })
        o.flow_control

  abbrev pub refusals : List (Option String)
  refusals =
      refused_baud_rate ∷ refused_character_size ∷ refused_parity ∷ refused_stop_bits
      ∷ refused_flow_control ∷ []

  -- The port with the five options.
  abbrev pub with_options : SerialPort
  with_options = record {
    baud_rate = o.baud_rate;
    character_size = o.character_size;
    parity = o.parity;
    stop_bits = o.stop_bits;
    flow_control = o.flow_control;
    rs485 = port.rs485;
  }

  -- The settings that are asked for have the enabled bit and what the options say; the rest of them
  -- is what the driver had.
  abbrev pub Follows : Rs485 → SerialRs485 → Type 0
  Follows options asked =
      FlagsFollow bits options port.rs485.flags asked.flags
      × (asked.delay_rts_before_send
          ≡ value_or options.delay_rts_before_send port.rs485.delay_rts_before_send)
      × (asked.delay_rts_after_send
          ≡ value_or options.delay_rts_after_send port.rs485.delay_rts_after_send)

  -- It succeeds with the five options and what the driver keeps of the settings asked for.
  abbrev pub Kept : SerialRs485 → Result SerialPort → Type 0
  Kept asked r = r ≡ ok (record with_options { rs485 = driver.stores with_options asked })

  -- The settings are asked for, and the driver takes them or not.
  abbrev pub AfterGet : Rs485 → Result SerialPort → Type 0
  AfterGet options r =
      (asked : SerialRs485) × Follows options asked
      × Stops (driver.refuses_set with_options asked) cannot_set (Kept asked) r

  -- After the five options: nothing more, or the driver's settings are read and written, where either
  -- may fail.
  abbrev pub BusIsSet : Option Rs485 → Result SerialPort → Type 0
  BusIsSet none r = r ≡ ok with_options
  BusIsSet (some options) r =
      Stops (driver.refuses_get with_options) cannot_get (AfterGet options) r

  set_rs485-BusIsSet :
      AreDistinct bits
      → (options : Option Rs485) → BusIsSet options (set_rs485 driver bits options with_options)
  unfolding set_rs485 update_rs485
  set_rs485-BusIsSet d none = refl
  set_rs485-BusIsSet d (some options) =
      let asked : SerialRs485 = update_rs485 bits options port.rs485 in
      let kept : SerialRs485 = driver.stores with_options asked in
      let done : Result SerialPort = ok (record with_options { rs485 = kept }) in
      let written : Result SerialPort =
        unless (driver.refuses_set with_options asked) cannot_set >> done in
      unless-Stops (driver.refuses_get with_options) cannot_get (AfterGet options) written (
        asked,
        (update_rs485-flags bits d options port.rs485, refl, refl),
        unless-Stops (driver.refuses_set with_options asked) cannot_set (Kept asked) done refl,
      )

  -- If the bits have different numbers, SetOptions, for all options and whatever asio and the driver
  -- refuse, ends in one of these ways. If one of the five options of the line is refused, each asked
  -- for with the options before it set, it throws the exception of the first one refused. Otherwise,
  -- without RS-485 options it succeeds with the five options set; with them it throws "get rs485
  -- options error" or "set rs485 options error" with the text of the error number if the driver's
  -- settings cannot be read or written, and else it succeeds with the five options set and with what
  -- the driver keeps of the settings it was asked for. Those have the enabled bit, and each bit and
  -- delay that an option gives; every other bit and delay is as before.
  pub set_options_lem :
      AreDistinct bits
      → Stops (first refusals) system_error (BusIsSet o.rs485) (set_options driver bits o port)
  unfolding set_options
  set_options_lem d =
      five-Stops refused_baud_rate refused_character_size refused_parity refused_stop_bits
        refused_flow_control (BusIsSet o.rs485) (set_rs485 driver bits o.rs485 with_options)
        (set_rs485-BusIsSet d o.rs485)
