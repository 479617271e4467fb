-- ===== src/Config/Rtu/BusReads.antt =====
-- What ExtractRs485Options reads from the document of the RS-485 options.
use Prim.Native.String.{String}
use modbus_gateway.Base.{arith, ℕ, ◌^◌, ◌<◌, ◌≡◌, refl, Bool, Option}
use modbus_gateway.Config.Keys
use modbus_gateway.Config.ValueType.{JsonType, convert_json_type, object, boolean, number}
use modbus_gateway.Config.Types.{Rs485}
use modbus_gateway.Config.Json.{Json}
use modbus_gateway.Config.Extract.Reads.{
  Reads, Reads-pure, Reads-trace_deep, Reads-bind, Reads-found, Reads-missing,
}
use modbus_gateway.Config.Print.{
  Builder, option_map, rs485_members, rs485_document, lookup, or_else, find-once,
}
use modbus_gateway.Config.Scalars.Reads.{
  check_type-Reads, extract_value_opt-Reads, extract_value_opt-missing,
}
use modbus_gateway.Config.Rtu.{flag, delay, rs485_value, extract_rs485_options}

-- A delay that a 32-bit number holds.
abbrev pub IsDelay : Option ℕ → Type 0
IsDelay Option.none = Unit
IsDelay (Option.some n) = n < 2 ^ 32

abbrev pub HasDelays : Option Rs485 → Type 0
HasDelays Option.none = Unit
HasDelays (Option.some r) = IsDelay r.delay_rts_before_send × IsDelay r.delay_rts_after_send

module _ {Value Float : Type 0} (json : Json Value Float) (builder : Builder json) where
  flag-Reads :
      (v : Value) (key : String) (o : Option Bool)
      → json.find key v ≡ option_map builder.flag o
      → Reads (flag json v key) o
  unfolding convert_json_type
  flag-Reads v key Option.none f =
      extract_value_opt-missing json builder json.get_bool v key boolean f
  flag-Reads v key (Option.some b) f =
      extract_value_opt-Reads json builder json.get_bool v key boolean (builder.flag b)
        JsonType.boolean b f (builder.type-flag b) refl (builder.get_bool-flag b)

  delay-Reads :
      (v : Value) (key : String) (o : Option ℕ)
      → json.find key v ≡ option_map builder.natural o
      → IsDelay o
      → Reads (delay json v key) o
  unfolding convert_json_type
  delay-Reads v key Option.none f h =
      extract_value_opt-missing json builder json.get_uint32 v key number f
  delay-Reads v key (Option.some n) f h =
      extract_value_opt-Reads json builder json.get_uint32 v key number (builder.natural n)
        JsonType.number_unsigned n f (builder.type-natural n (omega (arith, h))) refl
        (builder.get_uint32-natural n h)

  rs485_value-Reads :
      (r : Rs485)
      → HasDelays (Option.some r)
      → Reads (rs485_value json (rs485_document json builder r)) (Option.some r)
  unfolding rs485_value convert_json_type
  rs485_value-Reads r (d, d') =
      Reads-bind _ _ tt (Option.some r)
        (check_type-Reads json builder Keys.rs485 v JsonType.object object (builder.type-object _)
          refl)
        (Reads-bind _ _ r.rts_on_send (Option.some r)
          (flag-Reads v Keys.rts_on_send r.rts_on_send (once Keys.rts_on_send _ refl))
          (Reads-bind _ _ r.rts_after_send (Option.some r)
            (flag-Reads v Keys.rts_after_send r.rts_after_send (once Keys.rts_after_send _ refl))
            (Reads-bind _ _ r.rx_during_tx (Option.some r)
              (flag-Reads v Keys.rx_during_tx r.rx_during_tx (once Keys.rx_during_tx _ refl))
              (Reads-bind _ _ r.terminate_bus (Option.some r)
                (flag-Reads v Keys.terminate_bus r.terminate_bus (once Keys.terminate_bus _ refl))
                (Reads-bind _ _ r.delay_rts_before_send (Option.some r)
                  (delay-Reads v Keys.delay_rts_before_send r.delay_rts_before_send
                    (once Keys.delay_rts_before_send _ refl) d)
                  (Reads-bind _ _ r.delay_rts_after_send (Option.some r)
                    (delay-Reads v Keys.delay_rts_after_send r.delay_rts_after_send
                      (once Keys.delay_rts_after_send _ refl) d')
                    (Reads-pure (Option.some r))))))))
    where
      v : Value
      v = rs485_document json builder r

      once :
          (key : String) (o : Option Value)
          → lookup key (rs485_members json builder r) ≡ or_else o Option.none
          → json.find key v ≡ o
      once key o e = find-once json builder key (rs485_members json builder r) o e

  pub extract_rs485_options-Reads :
      (obj : Value) (o : Option Rs485)
      → json.find Keys.rs485 obj ≡ option_map (rs485_document json builder) o
      → HasDelays o
      → Reads (extract_rs485_options json obj) o
  unfolding extract_rs485_options
  extract_rs485_options-Reads obj Option.none f h =
      Reads-trace_deep Keys.rs485 _ Option.none (Reads-missing _ (json.find Keys.rs485 obj) f)
  extract_rs485_options-Reads obj (Option.some r) f h =
      Reads-trace_deep Keys.rs485 _ (Option.some r) (
        Reads-found _ (json.find Keys.rs485 obj) (rs485_document json builder r) (Option.some r) f
          (rs485_value-Reads r h))
