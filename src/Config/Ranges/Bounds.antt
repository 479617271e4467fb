-- ===== src/Config/Ranges/Bounds.antt =====
-- The ranges that are read are within the unit ids, and not reversed.
use Prim.Native.String.{String}
use modbus_gateway.Base.{ℕ, ◌+◌, ◌≤◌, ◌≢◌, Option, none, some, List, [], ◌∷◌, All, arith}
use modbus_gateway.Decimal.{to_string}
use modbus_gateway.Modbus.{UnitIds}
use modbus_gateway.Config.Types.{UnitIdRange}
use modbus_gateway.Config.Convertors.{NumericRangeType, range, value}
use modbus_gateway.Config.Json.{Json}
use modbus_gateway.Config.Extract.{Extract, trace_deep, when_found}
use modbus_gateway.Config.Extract.Ensures.{
  Ensures, Ensures-pure, Ensures-throw_invalid_value, Ensures-trace_deep, Ensures-bind, Ensures-any,
}
use modbus_gateway.Config.ValueType.{array}
use modbus_gateway.Config.Scalars.{check_type, extract_numeric_range_type}
use modbus_gateway.Config.Scalars.Bounds.{IsUnitId, extract_modbus_unit_id-Ensures}
use modbus_gateway.Config.Ranges.{
  normalize, extract_elements, extract_nonempty, range_of_type, extract_unit_id_range,
  range_set_value, extract_unit_id_range_set,
}

abbrev pub IsRange : UnitIds → UnitIdRange → Type 0
IsRange ids r = (ids.min ≤ r.begin) × (r.begin ≤ r.end) × (r.end ≤ ids.max)

-- Normalize puts the ends in order.
normalize-IsRange :
    (ids : UnitIds) (b e : ℕ)
    → IsUnitId ids b
    → IsUnitId ids e
    → IsRange ids (normalize (record { begin = b; end = e }))
unfolding normalize
normalize-IsRange ids b e p q = ground arith

module _ {κ} {Value T : Type 0} (P : T → Type κ) (extract : Value → Extract T)
    (ensures : (v : Value) → Ensures P (extract v)) where
  extract_elements-Ensures :
      (index : ℕ) (vs : List Value) → Ensures (All P) (extract_elements extract index vs)
  unfolding extract_elements
  extract_elements-Ensures index [] = Ensures-pure (All P) [] tt
  extract_elements-Ensures index (v ∷ vs) =
      Ensures-bind (All P) P _ _ (Ensures-trace_deep P (to_string index) (extract v) (ensures v))
        (λ element p.
          Ensures-bind (All P) (All P) _ _ (extract_elements-Ensures (index + 1) vs)
            (λ rest q. Ensures-pure (All P) (element ∷ rest) (p, q)))

  extract_elements-nonempty :
      (index : ℕ) (v : Value) (vs : List Value)
      → Ensures (λ xs. xs ≢ []) (extract_elements extract index (v ∷ vs))
  unfolding extract_elements
  extract_elements-nonempty index v vs =
      Ensures-bind (λ xs. xs ≢ []) (λ _. Unit {0}) _ _
        (Ensures-any (trace_deep (to_string index) (extract v)))
        (λ element _.
          Ensures-bind (λ xs. xs ≢ []) (λ _. Unit {0}) _ _
            (Ensures-any (extract_elements extract (index + 1) vs))
            (λ rest _. Ensures-pure (λ xs. xs ≢ []) (element ∷ rest) (λ e. cc)))

  abbrev pub IsFull : List T → Type κ
  IsFull xs = (xs ≢ []) × All P xs

  pub extract_nonempty-Ensures :
      (key complaint : String) (vs : List Value)
      → Ensures IsFull (extract_nonempty key complaint extract vs)
  unfolding extract_nonempty
  extract_nonempty-Ensures key complaint [] = Ensures-throw_invalid_value IsFull key complaint
  extract_nonempty-Ensures key complaint (v ∷ vs) = record {
    holds = λ path a e. (
      (extract_elements-nonempty 0 v vs).holds path a e,
      (extract_elements-Ensures 0 (v ∷ vs)).holds path a e,
    );
  }

module _ {Value Float : Type 0} (json : Json Value Float) (ids : UnitIds) where
  range_of_type-Ensures :
      (type : NumericRangeType) (obj : Value)
      → Ensures (IsRange ids) (range_of_type json ids type obj)
  unfolding range_of_type
  range_of_type-Ensures range obj =
      Ensures-bind (IsRange ids) (IsUnitId ids) _ _
        (extract_modbus_unit_id-Ensures json ids obj "begin")
        (λ b p.
          Ensures-bind (IsRange ids) (IsUnitId ids) _ _
            (extract_modbus_unit_id-Ensures json ids obj "end")
            (λ e q. Ensures-pure (IsRange ids) _ (normalize-IsRange ids b e p q)))
  range_of_type-Ensures value obj =
      Ensures-bind (IsRange ids) (IsUnitId ids) _ _
        (extract_modbus_unit_id-Ensures json ids obj "value")
        (λ n p. Ensures-pure (IsRange ids) _ (omega arith))

  -- A range that is read without an exception has both ends among the unit ids and is not reversed.
  pub extract_unit_id_range-Ensures :
      (obj : Value) → Ensures (IsRange ids) (extract_unit_id_range json ids obj)
  unfolding extract_unit_id_range
  extract_unit_id_range-Ensures obj =
      Ensures-bind (IsRange ids) (λ _. Unit {0}) _ _
        (Ensures-any (extract_numeric_range_type json obj))
        (λ type _. range_of_type-Ensures type obj)

  -- What the set of ranges promises: it is absent, or it holds ranges, and at least one.
  abbrev pub IsRangeSet : Option (List UnitIdRange) → Type 0
  IsRangeSet none = Unit
  IsRangeSet (some rs) = (rs ≢ []) × All (IsRange ids) rs

  range_set_value-Ensures : (obj : Value) → Ensures IsRangeSet (range_set_value json ids obj)
  unfolding range_set_value
  range_set_value-Ensures obj =
      Ensures-bind IsRangeSet (λ _. Unit {0}) _ _
        (Ensures-any (check_type json "unit_id" obj array))
        (λ _ _.
          Ensures-bind IsRangeSet (λ rs. (rs ≢ []) × All (IsRange ids) rs) _ _
            (extract_nonempty-Ensures (IsRange ids) _ extract_unit_id_range-Ensures _ _ _)
            (λ rs p. Ensures-pure IsRangeSet (some rs) p))

  pub extract_unit_id_range_set-Ensures :
      (obj : Value) → Ensures IsRangeSet (extract_unit_id_range_set json ids obj)
  unfolding extract_unit_id_range_set
  extract_unit_id_range_set-Ensures obj =
      Ensures-trace_deep IsRangeSet "unit_id" _ (found (json.find "unit_id" obj))
    where
      found : (o : Option Value) → Ensures IsRangeSet (when_found (range_set_value json ids) o)
      found none = Ensures-pure IsRangeSet none tt
      found (some v) = range_set_value-Ensures v
