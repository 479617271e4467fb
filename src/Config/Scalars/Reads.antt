-- ===== src/Config/Scalars/Reads.antt =====
-- What the readers of single keys read from a value that is there.
use Prim.Native.String.{String}
use modbus_gateway.Base.{ℕ, ◌^◌, ◌≤◌, ◌<◌, ◌≡◌, refl, ap, ◌∙◌, true, false, none, some, ltb, arith}
use modbus_gateway.Exception.{ok}
use modbus_gateway.Config.ValueType.{
  ValueType, JsonType, convert_json_type, unknown, object, array, string, boolean, number,
}
use modbus_gateway.Config.Json.{Json}
use modbus_gateway.Config.Extract.{pure, throw_key_not_found}
use modbus_gateway.Config.Extract.Reads.{
  Reads, Reads-pure, Reads-trace_deep, Reads-bind, Reads-or_else_throw, Reads-else, Reads-then,
  Reads-found, Reads-missing,
}
use modbus_gateway.Config.Print.{Builder}
use modbus_gateway.Config.Scalars.{
  same_type, find_object, check_type, extract_string, typed_value, extract_value_opt,
  extract_string_opt, unsigned_value, extract_unsigned_number_opt, extract_unsigned_number,
}

same_type_self : (t : ValueType) → same_type t t ≡ true
same_type_self unknown = refl
same_type_self object = refl
same_type_self array = refl
same_type_self string = refl
same_type_self boolean = refl
same_type_self number = refl

ltb-past : (limit n : ℕ) → n ≤ limit → ltb limit n ≡ false
ltb-past limit n h = ground arith

module _ {Value Float : Type 0} (json : Json Value Float) (builder : Builder json) where
  pub find_object-Reads :
      (key : String) (obj v : Value)
      → json.find key obj ≡ some v
      → Reads (find_object json key obj) v
  unfolding find_object
  find_object-Reads key obj v e =
      Reads-or_else_throw (throw_key_not_found key) (json.find key obj) v e

  pub check_type-Reads :
      (key : String) (v : Value) (t : JsonType) (expect : ValueType)
      → json.type v ≡ t
      → convert_json_type t ≡ expect
      → Reads (check_type json key v expect) tt
  unfolding check_type
  check_type-Reads key v t expect e q =
      Reads-then (same_type (convert_json_type (json.type v)) expect) (pure tt) _ tt
        (ap (λ x. same_type x expect) (ap convert_json_type e ∙ q) ∙ same_type_self expect)
        (Reads-pure tt)

  -- A text under the key.
  pub extract_string-Reads :
      (obj : Value) (key s : String)
      → json.find key obj ≡ some (builder.text s)
      → Reads (extract_string json obj key) s
  unfolding extract_string convert_json_type
  extract_string-Reads obj key s e = Reads-trace_deep key _ s (
      Reads-bind _ _ (builder.text s) s (find_object-Reads key obj (builder.text s) e) (
        Reads-bind _ _ tt s
          (check_type-Reads key (builder.text s) JsonType.string string (builder.type-text s) refl)
          (λ path. ap (λ x. (ok x, path)) (builder.get_string-text s))))

  -- What the optional readers do with a value that is there.
  typed_value-Reads :
      {T : Type 0} (key : String) (v : Value) (t : JsonType) (expect : ValueType) (get : Value → T)
      (a : T)
      → json.type v ≡ t
      → convert_json_type t ≡ expect
      → get v ≡ a
      → Reads (typed_value json key v expect get) (some a)
  unfolding typed_value
  typed_value-Reads key v t expect get a e q g =
      Reads-bind _ _ tt (some a) (check_type-Reads key v t expect e q)
        (λ path. ap (λ x. (ok (some x), path)) g)

  pub extract_value_opt-Reads :
      {T : Type 0} (get : Value → T) (obj : Value) (key : String) (expect : ValueType) (v : Value)
      (t : JsonType) (a : T)
      → json.find key obj ≡ some v
      → json.type v ≡ t
      → convert_json_type t ≡ expect
      → get v ≡ a
      → Reads (extract_value_opt json get obj key expect) (some a)
  unfolding extract_value_opt
  extract_value_opt-Reads get obj key expect v t a f e q g = Reads-trace_deep key _ (some a) (
      Reads-found _ (json.find key obj) v (some a) f (typed_value-Reads key v t expect get a e q g))

  pub extract_value_opt-missing :
      {T : Type 0} (get : Value → T) (obj : Value) (key : String) (expect : ValueType)
      → json.find key obj ≡ none
      → Reads (extract_value_opt json get obj key expect) none
  unfolding extract_value_opt
  extract_value_opt-missing get obj key expect f =
      Reads-trace_deep key _ none (Reads-missing _ (json.find key obj) f)

  pub extract_string_opt-Reads :
      (obj : Value) (key s : String)
      → json.find key obj ≡ some (builder.text s)
      → Reads (extract_string_opt json obj key) (some s)
  unfolding extract_string_opt convert_json_type
  extract_string_opt-Reads obj key s f = Reads-trace_deep key _ (some s) (
      Reads-found _ (json.find key obj) (builder.text s) (some s) f (
        typed_value-Reads key (builder.text s) JsonType.string string json.get_string s
          (builder.type-text s) refl (builder.get_string-text s)))

  unsigned_value-Reads :
      (limit : ℕ) (key : String) (n : ℕ)
      → n ≤ limit
      → n < 2 ^ 64
      → Reads (unsigned_value json limit key (builder.natural n)) (some n)
  unfolding unsigned_value convert_json_type
  unsigned_value-Reads limit key n h b =
      let v = builder.natural n in
      let got : json.get_uint64 v ≡ n = builder.get_uint64-natural n b in
      Reads-bind _ _ tt (some n)
        (check_type-Reads key v JsonType.number_unsigned number (builder.type-natural n b) refl)
        (Reads-else (ltb limit (json.get_uint64 v)) _ _ (some n)
          (ap (λ x. ltb limit x) got ∙ ltb-past limit n h)
          (λ path. ap (λ x. (ok (some x), path)) got))

  -- A number under the key, within the limit.
  pub extract_unsigned_number_opt-Reads :
      (limit : ℕ) (obj : Value) (key : String) (n : ℕ)
      → json.find key obj ≡ some (builder.natural n)
      → n ≤ limit
      → n < 2 ^ 64
      → Reads (extract_unsigned_number_opt json limit obj key) (some n)
  unfolding extract_unsigned_number_opt
  extract_unsigned_number_opt-Reads limit obj key n f h b = Reads-trace_deep key _ (some n) (
      Reads-found _ (json.find key obj) (builder.natural n) (some n) f
        (unsigned_value-Reads limit key n h b))

  pub extract_unsigned_number-Reads :
      (limit : ℕ) (obj : Value) (key : String) (n : ℕ)
      → json.find key obj ≡ some (builder.natural n)
      → n ≤ limit
      → n < 2 ^ 64
      → Reads (extract_unsigned_number json limit obj key) n
  unfolding extract_unsigned_number
  extract_unsigned_number-Reads limit obj key n f h b =
      Reads-bind _ _ (some n) n (extract_unsigned_number_opt-Reads limit obj key n f h b)
        (Reads-pure n)
