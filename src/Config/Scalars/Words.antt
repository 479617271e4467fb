-- ===== src/Config/Scalars/Words.antt =====
-- What the readers of words, unit ids and addresses read from a value that is there.
use Prim.Native.String.{String}
use modbus_gateway.Base.{
  ℕ, ◌^◌, ◌≤◌, ◌<◌, ◌≡◌, refl, ap, ◌∙◌, false, ◌||◌, Option, some, ltb, ◌==◌, arith,
}
use modbus_gateway.Exception.{ok}
use modbus_gateway.Modbus.{FrameType, tcp, rtu, ascii, UnitIds}
use modbus_gateway.Config.Keys
use modbus_gateway.Config.ValueType.{JsonType, convert_json_type, string, number}
use modbus_gateway.Config.Convertors.{
  LogLevel, NumericRangeType, convert_log_level, convert_frame_type, convert_numeric_range_type,
}
use modbus_gateway.Config.Json.{Json, Asio}
use modbus_gateway.Config.Extract.{throw_invalid_value}
use modbus_gateway.Config.Extract.Reads.{
  Reads, Reads-pure, Reads-trace_deep, Reads-bind, Reads-or_else_throw, Reads-else, Reads-found,
}
use modbus_gateway.Config.Print.{Builder, level_word, frame_word}
use modbus_gateway.Config.Scalars.{
  check_type, converted, log_level_value, extract_log_level, extract_frame_type, port_max,
  extract_ip_port, extract_numeric_range_type, extract_modbus_unit_id, address_value,
  extract_ip_address_optional, extract_ip_address,
}
use modbus_gateway.Config.Scalars.Reads.{
  find_object-Reads, check_type-Reads, extract_string-Reads, extract_unsigned_number-Reads,
}

pub convert_log_level-word : (l : LogLevel) → convert_log_level (level_word l) ≡ some l
unfolding convert_log_level
convert_log_level-word LogLevel.trace = refl
convert_log_level-word LogLevel.debug = refl
convert_log_level-word LogLevel.info = refl
convert_log_level-word LogLevel.warning = refl
convert_log_level-word LogLevel.error = refl
convert_log_level-word LogLevel.critical = refl

pub convert_frame_type-word : (f : FrameType) → convert_frame_type (frame_word f) ≡ some f
unfolding convert_frame_type
convert_frame_type-word tcp = refl
convert_frame_type-word rtu = refl
convert_frame_type-word ascii = refl

-- A port that is not 0.
is_port : (n : ℕ) → 0 < n → n ≤ 65535 → (n == 0 || ltb 65535 n) ≡ false
is_port n l h = ground arith

is_unit_id :
    (ids : UnitIds) (n : ℕ) → ids.min ≤ n → n ≤ ids.max → (ltb n ids.min || ltb ids.max n) ≡ false
is_unit_id ids n l h = ground arith

module _ {Value Float : Type 0} (json : Json Value Float) (builder : Builder json) where
  converted-Reads :
      {T : Type 0} (key : String) (convert : String → Option T) (s w : String) (a : T)
      → s ≡ w
      → convert w ≡ some a
      → Reads (converted json key convert s) a
  unfolding converted
  converted-Reads key convert s w a e c =
      Reads-or_else_throw (throw_invalid_value key s) (convert s) a (ap convert e ∙ c)

  word-Reads : (key s : String) → Reads (check_type json key (builder.text s) string) tt
  unfolding convert_json_type
  word-Reads key s =
      check_type-Reads json builder key (builder.text s) JsonType.string string
        (builder.type-text s) refl

  pub extract_log_level-Reads :
      (obj : Value) (l : LogLevel)
      → json.find Keys.log_level obj ≡ some (builder.text (level_word l))
      → Reads (extract_log_level json obj) (some l)
  unfolding extract_log_level log_level_value
  extract_log_level-Reads obj l f =
      let s = level_word l in
      Reads-trace_deep Keys.log_level _ (some l) (
        Reads-found _ (json.find Keys.log_level obj) (builder.text s) (some l) f (
          Reads-bind _ _ tt (some l) (word-Reads Keys.log_level s) (
            Reads-bind _ _ l (some l)
              (converted-Reads Keys.log_level convert_log_level (json.get_string (builder.text s)) s
                l (builder.get_string-text s) (convert_log_level-word l))
              (Reads-pure (some l)))))

  pub extract_frame_type-Reads :
      (obj : Value) (t : FrameType)
      → json.find Keys.frame_type obj ≡ some (builder.text (frame_word t))
      → Reads (extract_frame_type json obj) t
  unfolding extract_frame_type
  extract_frame_type-Reads obj t f =
      let s = frame_word t in
      Reads-trace_deep Keys.frame_type _ t (
        Reads-bind _ _ (builder.text s) t
          (find_object-Reads json builder Keys.frame_type obj (builder.text s) f)
          (Reads-bind _ _ tt t (word-Reads Keys.frame_type s) (
            converted-Reads Keys.frame_type convert_frame_type (json.get_string (builder.text s)) s
              t (builder.get_string-text s) (convert_frame_type-word t))))

  pub extract_ip_port-Reads :
      (obj : Value) (n : ℕ)
      → json.find Keys.ip_port obj ≡ some (builder.natural n)
      → 0 < n
      → n ≤ 65535
      → Reads (extract_ip_port json obj) n
  unfolding extract_ip_port convert_json_type
  extract_ip_port-Reads obj n f l h =
      let v = builder.natural n in
      let got : json.get_uint64 v ≡ n = builder.get_uint64-natural n (omega (arith, h)) in
      Reads-trace_deep Keys.ip_port _ n (
        Reads-bind _ _ v n (find_object-Reads json builder Keys.ip_port obj v f) (
          Reads-bind _ _ tt n
            (check_type-Reads json builder Keys.ip_port v JsonType.number_unsigned number
              (builder.type-natural n (omega (arith, h))) refl)
            (Reads-else (json.get_uint64 v == 0 || ltb (port_max json) (json.get_uint64 v)) _ _ n
              (ap (λ x. x == 0 || ltb (port_max json) x) got ∙ is_port n l h)
              (λ path. ap (λ x. (ok x, path)) got))))

  pub extract_numeric_range_type-Reads :
      (obj : Value) (s : String) (t : NumericRangeType)
      → json.find Keys.numeric_range_type obj ≡ some (builder.text s)
      → convert_numeric_range_type s ≡ some t
      → Reads (extract_numeric_range_type json obj) t
  unfolding extract_numeric_range_type
  extract_numeric_range_type-Reads obj s t f c = Reads-trace_deep Keys.numeric_range_type _ t (
      Reads-bind _ _ s t (extract_string-Reads json builder obj Keys.numeric_range_type s f)
        (converted-Reads Keys.numeric_range_type convert_numeric_range_type s s t refl c))

  pub extract_modbus_unit_id-Reads :
      (ids : UnitIds) (obj : Value) (key : String) (n : ℕ)
      → json.find key obj ≡ some (builder.natural n)
      → ids.min ≤ n
      → n ≤ ids.max
      → ids.max ≤ ids.limit
      → ids.limit < 2 ^ 64
      → Reads (extract_modbus_unit_id json ids obj key) n
  unfolding extract_modbus_unit_id
  extract_modbus_unit_id-Reads ids obj key n f l h m b =
      Reads-bind _ _ n n
        (extract_unsigned_number-Reads json builder ids.limit obj key n f (omega arith)
          (omega arith))
        (Reads-else (ltb n ids.min || ltb ids.max n) _ _ n (is_unit_id ids n l h) (Reads-pure n))

module _ {Value Float Addr : Type 0} (json : Json Value Float) (builder : Builder json)
    (asio : Asio Addr) where
  pub extract_ip_address_optional-Reads :
      (obj : Value) (s : String) (a : Addr)
      → json.find Keys.ip_address obj ≡ some (builder.text s)
      → asio.make_address s ≡ some a
      → Reads (extract_ip_address_optional json asio obj) (some a)
  unfolding extract_ip_address_optional address_value
  extract_ip_address_optional-Reads obj s a f m = Reads-trace_deep Keys.ip_address _ (some a) (
      Reads-found _ (json.find Keys.ip_address obj) (builder.text s) (some a) f (
        Reads-bind _ _ tt (some a) (word-Reads json builder Keys.ip_address s) (
          Reads-bind _ _ a (some a)
            (Reads-or_else_throw _ (asio.make_address (json.get_string (builder.text s))) a
              (ap (λ x. asio.make_address x) (builder.get_string-text s) ∙ m))
            (Reads-pure (some a)))))

  pub extract_ip_address-Reads :
      (obj : Value) (s : String) (a : Addr)
      → json.find Keys.ip_address obj ≡ some (builder.text s)
      → asio.make_address s ≡ some a
      → Reads (extract_ip_address json asio obj) a
  unfolding extract_ip_address
  extract_ip_address-Reads obj s a f m =
      Reads-bind _ _ (some a) a (extract_ip_address_optional-Reads obj s a f m) (Reads-pure a)
