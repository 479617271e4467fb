-- ===== src/Config/Rtu/Reads.antt =====
-- What ExtractRtuOptions reads from the document of a serial line.
use native.Mathlib.Nat.{mod-eq_of_lt}
use modbus_gateway.Base.{ℕ, ◌^◌, ◌<◌, ◌≡◌, refl, ap, ◌∙◌, Bool, true, Option, ◌==◌, arith}
use modbus_gateway.Exception.{ok}
use modbus_gateway.LimitQueue.{size_max}
use modbus_gateway.Config.Keys
use modbus_gateway.Config.ValueType.{JsonType, convert_json_type, number}
use modbus_gateway.Config.Types.{RtuOptions, Parity, StopBits, FlowControl}
use modbus_gateway.Config.Convertors.{convert_parity, convert_stop_bits, convert_flow_control}
use modbus_gateway.Config.Json.{Json, Asio}
use modbus_gateway.Config.Extract.Reads.{
  Reads, Reads-pure, Reads-bind, Reads-or_else_throw, Reads-then,
}
use modbus_gateway.Config.Print.{
  Builder, parity_word, stop_bits_halves, flow_control_word, option_map, rs485_document,
}
use modbus_gateway.Config.Scalars.Reads.{
  extract_value_opt-Reads, extract_string_opt-Reads, extract_unsigned_number_opt-Reads,
}
use modbus_gateway.Config.Rtu.{
  default_options, unsigned_int, parity_option, stop_bits_option, flow_control_option,
  baud_rate_option, character_size_option, extract_rtu_options,
}
use modbus_gateway.Config.Rtu.BusReads.{HasDelays, extract_rs485_options-Reads}

convert_parity-word : (p : Parity) → convert_parity (parity_word p) ≡ Option.some p
unfolding convert_parity
convert_parity-word Parity.none = refl
convert_parity-word Parity.odd = refl
convert_parity-word Parity.even = refl

convert_flow_control-word :
    (f : FlowControl) → convert_flow_control (flow_control_word f) ≡ Option.some f
unfolding convert_flow_control
convert_flow_control-word FlowControl.none = refl
convert_flow_control-word FlowControl.software = refl
convert_flow_control-word FlowControl.hardware = refl

convert_stop_bits-halves :
    (is_halves : ℕ → Bool) (s : StopBits)
    → ((k : ℕ) → k < 2 ^ 24 → is_halves k ≡ (stop_bits_halves s == k))
    → convert_stop_bits is_halves ≡ Option.some s
unfolding convert_stop_bits
convert_stop_bits-halves is_halves StopBits.one h = rw (h 2 (omega arith)) refl
convert_stop_bits-halves is_halves StopBits.onepointfive h =
    rw (h 2 (omega arith), h 3 (omega arith)) refl
convert_stop_bits-halves is_halves StopBits.two h =
    rw (h 2 (omega arith), h 3 (omega arith), h 4 (omega arith)) refl

stop_bits_halves-small : (s : StopBits) → stop_bits_halves s < 2 ^ 24
stop_bits_halves-small StopBits.one = omega arith
stop_bits_halves-small StopBits.onepointfive = omega arith
stop_bits_halves-small StopBits.two = omega arith

unsigned_int-small : (n : ℕ) → n < 2 ^ 32 → unsigned_int n ≡ n
unsigned_int-small n h = mod-eq_of_lt h

module _ {Value Float : Type 0} (json : Json Value Float) (builder : Builder json) where
  parity_option-Reads :
      (options : RtuOptions) (p : Parity)
      → Reads
          (parity_option json options (Option.some (parity_word p)))
          (record options { parity = p })
  unfolding parity_option
  parity_option-Reads options p =
      Reads-bind _ _ p _
        (Reads-or_else_throw _ (convert_parity (parity_word p)) p (convert_parity-word p))
        (Reads-pure _)

  stop_bits_option-Reads :
      (options : RtuOptions) (s : StopBits)
      → Reads
          (stop_bits_option json options
            (Option.some (json.get_float (builder.halves (stop_bits_halves s)))))
          (record options { stop_bits = s })
  unfolding stop_bits_option
  stop_bits_option-Reads options s =
      let value = json.get_float (builder.halves (stop_bits_halves s)) in
      Reads-bind _ _ s _
        (Reads-or_else_throw _ (convert_stop_bits (json.is_halves value)) s (
          convert_stop_bits-halves (json.is_halves value) s
            (λ k h. builder.is_halves-halves (stop_bits_halves s) k (stop_bits_halves-small s) h)))
        (Reads-pure _)

  flow_control_option-Reads :
      (options : RtuOptions) (f : FlowControl)
      → Reads
          (flow_control_option json options (Option.some (flow_control_word f)))
          (record options { flow_control = f })
  unfolding flow_control_option
  flow_control_option-Reads options f =
      Reads-bind _ _ f _
        (Reads-or_else_throw _ (convert_flow_control (flow_control_word f)) f
          (convert_flow_control-word f))
        (Reads-pure _)

module _ {Value Float Addr : Type 0} (json : Json Value Float) (builder : Builder json)
    (asio : Asio Addr) where
  -- Options that asio's types hold, the character size one that asio accepts.
  abbrev pub IsLine : RtuOptions → Type 0
  IsLine o =
      (o.baud_rate < 2 ^ 32)
      × (o.character_size < 2 ^ 32)
      × (asio.accepts_character_size o.character_size ≡ true)
      × HasDelays o.rs485

  -- The document has the members of these options, and possibly others.
  abbrev pub HasLine : Value → RtuOptions → Type 0
  HasLine obj o =
      (json.find Keys.baud_rate obj ≡ Option.some (builder.natural o.baud_rate))
      × (json.find Keys.character_size obj ≡ Option.some (builder.natural o.character_size))
      × (json.find Keys.parity obj ≡ Option.some (builder.text (parity_word o.parity)))
      × (json.find Keys.stop_bits obj ≡ Option.some (builder.halves (stop_bits_halves o.stop_bits)))
      × (json.find Keys.flow_control obj
          ≡ Option.some (builder.text (flow_control_word o.flow_control)))
      × (json.find Keys.rs485 obj ≡ option_map (rs485_document json builder) o.rs485)

  character_size_option-Reads :
      (options : RtuOptions) (n : ℕ)
      → n < 2 ^ 32
      → asio.accepts_character_size n ≡ true
      → Reads
          (character_size_option json asio options (Option.some n))
          (record options { character_size = n })
  unfolding character_size_option
  character_size_option-Reads options n h a =
      Reads-then (asio.accepts_character_size (unsigned_int n)) _ _ _
        (ap (λ x. asio.accepts_character_size x) (unsigned_int-small n h) ∙ a)
        (λ path.
          ap (λ x. (ok (record options { character_size = x }), path)) (unsigned_int-small n h))

  pub extract_rtu_options-Reads :
      (obj : Value) (o : RtuOptions)
      → IsLine o
      → HasLine obj o
      → Reads (extract_rtu_options json asio obj) o
  unfolding extract_rtu_options baud_rate_option convert_json_type
  extract_rtu_options-Reads obj o (b, c, a, d) (fb, fc, fp, fs, ff, fr) =
      let with_baud_rate : RtuOptions = record default_options {
        baud_rate = unsigned_int o.baud_rate;
      } in
      let with_character_size : RtuOptions = record with_baud_rate {
        character_size = o.character_size;
      } in
      let with_parity : RtuOptions = record with_character_size { parity = o.parity } in
      let with_stop_bits : RtuOptions = record with_parity { stop_bits = o.stop_bits } in
      let with_flow_control : RtuOptions = record with_stop_bits {
        flow_control = o.flow_control;
      } in
      Reads-bind _ _ (Option.some o.baud_rate) o
        (extract_unsigned_number_opt-Reads json builder size_max obj Keys.baud_rate o.baud_rate fb
          (omega arith) (omega arith))
        (Reads-bind _ _ (Option.some o.character_size) o
          (extract_unsigned_number_opt-Reads json builder size_max obj Keys.character_size
            o.character_size fc (omega arith) (omega arith))
          (Reads-bind _ _ with_character_size o
            (character_size_option-Reads with_baud_rate o.character_size c a)
            (Reads-bind _ _ (Option.some (parity_word o.parity)) o
              (extract_string_opt-Reads json builder obj Keys.parity (parity_word o.parity) fp)
              (Reads-bind _ _ with_parity o
                (parity_option-Reads json builder with_character_size o.parity)
                (Reads-bind _ _
                  (Option.some (json.get_float (builder.halves (stop_bits_halves o.stop_bits)))) o
                  (extract_value_opt-Reads json builder json.get_float obj Keys.stop_bits number
                    (builder.halves (stop_bits_halves o.stop_bits)) JsonType.number_float _ fs
                    (builder.type-halves (stop_bits_halves o.stop_bits)) refl refl)
                  (Reads-bind _ _ with_stop_bits o
                    (stop_bits_option-Reads json builder with_parity o.stop_bits)
                    (Reads-bind _ _ (Option.some (flow_control_word o.flow_control)) o
                      (extract_string_opt-Reads json builder obj Keys.flow_control
                        (flow_control_word o.flow_control) ff)
                      (Reads-bind _ _ with_flow_control o
                        (flow_control_option-Reads json builder with_stop_bits o.flow_control)
                        (Reads-bind _ _ o.rs485 o
                          (extract_rs485_options-Reads json builder obj o.rs485 fr d)
                          (λ path.
                            ap (λ x. (ok (record o { baud_rate = x }), path))
                              (unsigned_int-small o.baud_rate b)))))))))))
