-- ===== src/Config/Ranges/Reads.antt =====
-- What the readers of the unit ids read from the documents of ranges.
use Prim.Native.String.{String}
use modbus_gateway.Base.{
  ℕ, ◌+◌, ◌^◌, ◌≤◌, ◌<◌, ◌≡◌, refl, sym, subst, ap, ◌∙◌, Bool, true, false, Bool-cases, inl, inr,
  Option, none, some, List, [], ◌∷◌, map, All, ◌==◌, arith, if◌then◌else◌,
}
use modbus_gateway.Exception.{ok}
use modbus_gateway.Decimal.{to_string}
use modbus_gateway.Modbus.{UnitIds}
use modbus_gateway.Config.Keys
use modbus_gateway.Config.ValueType.{JsonType, convert_json_type, array}
use modbus_gateway.Config.Types.{UnitIdRange}
use modbus_gateway.Config.Convertors.{NumericRangeType, convert_numeric_range_type}
use modbus_gateway.Config.Json.{Json}
use modbus_gateway.Config.Extract.{Extract}
use modbus_gateway.Config.Extract.Reads.{
  Reads, Reads-pure, Reads-trace_deep, Reads-bind, Reads-found, Reads-missing,
}
use modbus_gateway.Config.Print.{
  Builder, word, number, members, range_document, unit_ids, find-once,
}
use modbus_gateway.Config.Scalars.{extract_modbus_unit_id}
use modbus_gateway.Config.Scalars.Reads.{check_type-Reads}
use modbus_gateway.Config.Scalars.Words.{
  extract_numeric_range_type-Reads, extract_modbus_unit_id-Reads,
}
use modbus_gateway.Config.Ranges.{
  normalize, extract_elements, extract_nonempty, range_of_type, extract_unit_id_range,
  range_set_value, extract_unit_id_range_set,
}
use modbus_gateway.Config.Ranges.Bounds.{IsRange}

-- No member for no ranges.
abbrev pub read_ranges : List UnitIdRange → Option (List UnitIdRange)
read_ranges [] = none
read_ranges (r ∷ rs) = some (r ∷ rs)

if-true : {A : Type 0} {b : Bool} (a c : A) → b ≡ true → (if b then a else c) ≡ a
if-true a c e = rw e refl

if-false : {A : Type 0} {b : Bool} (a c : A) → b ≡ false → (if b then a else c) ≡ c
if-false a c e = rw e refl

eq-true : (m n : ℕ) → (m == n) ≡ true → m ≡ n
eq-true m n e = ground arith

-- Ends that are in order are left alone.
normalize-ordered : (r : UnitIdRange) → r.begin ≤ r.end → normalize r ≡ r
unfolding normalize
normalize-ordered r h = ground arith

-- What is read from the documents of elements, each of them by itself.
module _ {κ} {Value T : Type 0} (P : T → Type κ) (document : T → Value)
    (extract : Value → Extract T) (reads : (t : T) → P t → Reads (extract (document t)) t) where
  extract_elements-Reads :
      (index : ℕ) (ts : List T)
      → All P ts
      → Reads (extract_elements extract index (map document ts)) ts
  unfolding extract_elements
  extract_elements-Reads index [] ps = Reads-pure []
  extract_elements-Reads index (t ∷ ts) (p, ps) =
      Reads-bind _ _ t (t ∷ ts) (Reads-trace_deep (to_string index) _ t (reads t p)) (
        Reads-bind _ _ ts (t ∷ ts) (extract_elements-Reads (index + 1) ts ps) (Reads-pure (t ∷ ts)))

  pub extract_nonempty-Reads :
      (key complaint : String) (t : T) (ts : List T)
      → All P (t ∷ ts)
      → Reads (extract_nonempty key complaint extract (map document (t ∷ ts))) (t ∷ ts)
  unfolding extract_nonempty
  extract_nonempty-Reads key complaint t ts ps = extract_elements-Reads 0 (t ∷ ts) ps

module _ {Value Float : Type 0} (json : Json Value Float) (builder : Builder json) (ids : UnitIds)
    (within : ids.max ≤ ids.limit) (limited : ids.limit < 2 ^ 64) where
  unit_id-Reads :
      (obj : Value) (key : String) (n : ℕ)
      → json.find key obj ≡ some (builder.natural n)
      → ids.min ≤ n
      → n ≤ ids.max
      → Reads (extract_modbus_unit_id json ids obj key) n
  unit_id-Reads obj key n f l h =
      extract_modbus_unit_id-Reads json builder ids obj key n f l h within limited

  -- A document that says that it is a value.
  value-Reads :
      (obj : Value) (r : UnitIdRange)
      → json.find Keys.numeric_range_type obj ≡ word json builder "value"
      → json.find Keys.numeric_range_value obj ≡ number json builder r.begin
      → r.begin ≡ r.end
      → IsRange ids r
      → Reads (extract_unit_id_range json ids obj) r
  unfolding extract_unit_id_range range_of_type convert_numeric_range_type
  value-Reads obj r t v e (l, o, h) =
      Reads-bind _ _ NumericRangeType.value r
        (extract_numeric_range_type-Reads json builder obj "value" NumericRangeType.value t refl)
        (Reads-bind _ _ r.begin r
          (unit_id-Reads obj Keys.numeric_range_value r.begin v l (omega arith))
          (λ path. ap (λ n. (ok (record { begin = r.begin; end = n }), path)) e))

  -- A document that says that it is a range.
  range-Reads :
      (obj : Value) (r : UnitIdRange)
      → json.find Keys.numeric_range_type obj ≡ word json builder "range"
      → json.find Keys.numeric_range_begin obj ≡ number json builder r.begin
      → json.find Keys.numeric_range_end obj ≡ number json builder r.end
      → IsRange ids r
      → Reads (extract_unit_id_range json ids obj) r
  unfolding extract_unit_id_range range_of_type convert_numeric_range_type
  range-Reads obj r t b e (l, o, h) =
      Reads-bind _ _ NumericRangeType.range r
        (extract_numeric_range_type-Reads json builder obj "range" NumericRangeType.range t refl)
        (Reads-bind _ _ r.begin r
          (unit_id-Reads obj Keys.numeric_range_begin r.begin b l (omega arith))
          (Reads-bind _ _ r.end r (unit_id-Reads obj Keys.numeric_range_end r.end e (omega arith) h)
            (λ path. ap (λ x. (ok x, path)) (normalize-ordered r o))))

  extract_unit_id_range-Reads :
      (r : UnitIdRange)
      → IsRange ids r
      → Reads (extract_unit_id_range json ids (range_document json builder r)) r
  extract_unit_id_range-Reads r p = elim (Bool-cases (r.begin == r.end)) [
    | inl e ↦
        let ms =
          ("type", word json builder "value") ∷ ("value", number json builder r.begin) ∷ [] in
        subst (λ v. Reads (extract_unit_id_range json ids v) r) (sym (if-true _ _ e))
          (value-Reads (members json builder ms) r (find-once json builder "type" ms _ refl)
            (find-once json builder "value" ms _ refl) (eq-true r.begin r.end e) p)
    | inr e ↦
        let ms =
          ("type", word json builder "range")
          ∷ ("begin", number json builder r.begin)
          ∷ ("end", number json builder r.end)
          ∷ [] in
        subst (λ v. Reads (extract_unit_id_range json ids v) r) (sym (if-false _ _ e))
          (range-Reads (members json builder ms) r (find-once json builder "type" ms _ refl)
            (find-once json builder "begin" ms _ refl) (find-once json builder "end" ms _ refl) p)
  ]

  range_set_value-Reads :
      (r : UnitIdRange) (rs : List UnitIdRange)
      → All (IsRange ids) (r ∷ rs)
      → Reads
          (range_set_value json ids (builder.array (map (range_document json builder) (r ∷ rs))))
          (some (r ∷ rs))
  unfolding range_set_value convert_json_type
  range_set_value-Reads r rs ps =
      let vs = map (range_document json builder) (r ∷ rs) in
      Reads-bind _ _ tt (some (r ∷ rs))
        (check_type-Reads json builder Keys.unit_id_set (builder.array vs) JsonType.array array
          (builder.type-array vs) refl)
        (Reads-bind _ _ (r ∷ rs) (some (r ∷ rs))
          (λ path.
            ap
              (λ xs.
                extract_nonempty Keys.unit_id_set "unit_id empty" (extract_unit_id_range json ids)
                  xs path)
              (builder.items-array vs)
            ∙ extract_nonempty-Reads (IsRange ids) (range_document json builder)
                (extract_unit_id_range json ids) extract_unit_id_range-Reads Keys.unit_id_set
                "unit_id empty" r rs ps path)
          (Reads-pure (some (r ∷ rs))))

  pub extract_unit_id_range_set-Reads :
      (obj : Value) (rs : List UnitIdRange)
      → json.find Keys.unit_id_set obj ≡ unit_ids json builder rs
      → All (IsRange ids) rs
      → Reads (extract_unit_id_range_set json ids obj) (read_ranges rs)
  unfolding extract_unit_id_range_set
  extract_unit_id_range_set-Reads obj [] f ps =
      Reads-trace_deep Keys.unit_id_set _ none (Reads-missing _ (json.find Keys.unit_id_set obj) f)
  extract_unit_id_range_set-Reads obj (r ∷ rs) f ps =
      Reads-trace_deep Keys.unit_id_set _ (some (r ∷ rs)) (
        Reads-found _ (json.find Keys.unit_id_set obj) _ (some (r ∷ rs)) f
          (range_set_value-Reads r rs ps))
