-- ===== src/Config/Ranges.antt =====
-- config/unit_id_range.cpp, and ExtractUnitIdRangeSet of config/extractor.cpp.
pub mod Bounds
pub mod Orderly
pub mod Reads
use Prim.Native.String.{String}
use modbus_gateway.Config.Keys
use modbus_gateway.Base.{
  ℕ, suc, ◌+◌, Bool, true, false, Option, none, some, List, [], ◌∷◌, ltb, if◌then◌else◌,
}
use modbus_gateway.Decimal.{to_string}
use modbus_gateway.Modbus.{UnitIds}
use modbus_gateway.Config.ValueType.{array}
use modbus_gateway.Config.Types.{UnitIdRange}
use modbus_gateway.Config.Convertors.{NumericRangeType, range, value}
use modbus_gateway.Config.Json.{Json}
use modbus_gateway.Config.Extract.{
  Extract, ◌>>=◌, ◌>>◌, pure, when_found, trace_deep, throw_invalid_value,
}
use modbus_gateway.Config.Scalars.{check_type, extract_numeric_range_type, extract_modbus_unit_id}

-- UnitIdRange::Normalize
unfoldable pub normalize : UnitIdRange → UnitIdRange
normalize r = if ltb r.end r.begin then record { begin = r.end; end = r.begin } else r

-- `for (const auto &element : array)` with an index that names the element in the path.
extract_elements : {Value T : Type 0} → (Value → Extract T) → ℕ → List Value → Extract (List T)
extract_elements extract index [] = pure []
extract_elements extract index (v ∷ vs) = do
  element ← trace_deep (to_string index) (extract v)
  rest ← extract_elements extract (index + 1) vs
  pure (element ∷ rest)

-- A key's array: InvalidValueException with the key and " empty" if it has no elements.
unfoldable pub extract_nonempty :
    {Value T : Type 0} → String → String → (Value → Extract T) → List Value → Extract (List T)
unfolding extract_elements
extract_nonempty key complaint extract [] = throw_invalid_value key complaint
extract_nonempty key complaint extract (v ∷ vs) = extract_elements extract 0 (v ∷ vs)

module _ {Value Float : Type 0} (json : Json Value Float) (ids : UnitIds) where
  -- The `switch` of the constructor.
  range_of_type : NumericRangeType → Value → Extract UnitIdRange
  unfolding normalize
  range_of_type range obj = do
    begin ← extract_modbus_unit_id json ids obj Keys.numeric_range_begin
    end ← extract_modbus_unit_id json ids obj Keys.numeric_range_end
    pure (normalize (record { begin = begin; end = end }))
  range_of_type value obj = do
    unit_id ← extract_modbus_unit_id json ids obj Keys.numeric_range_value
    pure (record { begin = unit_id; end = unit_id })

  -- The constructor of UnitIdRange.
  unfoldable pub extract_unit_id_range : Value → Extract UnitIdRange
  unfolding range_of_type
  extract_unit_id_range obj = do type ← extract_numeric_range_type json obj; range_of_type type obj

  range_set_value : Value → Extract (Option (List UnitIdRange))
  range_set_value unit_ids = do
    check_type json Keys.unit_id_set unit_ids array
    ranges ←
        extract_nonempty Keys.unit_id_set "unit_id empty" extract_unit_id_range
          (json.items unit_ids)
    pure (some ranges)

  unfoldable pub extract_unit_id_range_set : Value → Extract (Option (List UnitIdRange))
  unfolding range_set_value
  extract_unit_id_range_set obj =
      trace_deep Keys.unit_id_set (when_found range_set_value (json.find Keys.unit_id_set obj))
