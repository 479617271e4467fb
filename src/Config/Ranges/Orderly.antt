-- ===== src/Config/Ranges/Orderly.antt =====
-- The readers of the unit ids leave the path as they found it, and throw
-- only what a reader may throw, with the path to the key.
use Prim.Native.String.{String}
use modbus_gateway.Base.{ℕ, ◌+◌, List, [], ◌∷◌}
use modbus_gateway.Decimal.{to_string}
use modbus_gateway.Modbus.{UnitIds}
use modbus_gateway.Config.Convertors.{NumericRangeType, range, value}
use modbus_gateway.Config.Json.{Json}
use modbus_gateway.Config.Extract.{Extract, trace_deep}
use modbus_gateway.Config.Extract.Orderly.{
  Orderly, orderly, Orderly-bind, Orderly-trace_deep, Orderly-pure,
}
use modbus_gateway.Config.Scalars.Orderly.{scalars}
use modbus_gateway.Config.Ranges.{
  extract_elements, extract_nonempty, range_of_type, extract_unit_id_range,
  extract_unit_id_range_set,
}

module _ {Value T : Type 0} (extract : Value → Extract T)
    (restores : (at : String) (v : Value) → Orderly at (extract v)) where
  extract_elements-Orderly :
      (at : String) (index : ℕ) (vs : List Value) → Orderly at (extract_elements extract index vs)
  unfolding extract_elements
  extract_elements-Orderly at index [] = search orderly
  extract_elements-Orderly at index (v ∷ vs) =
      Orderly-bind at (trace_deep (to_string index) (extract v)) _
        (Orderly-trace_deep at (to_string index) (extract v) (restores (to_string index) v))
        (λ element.
          Orderly-bind at (extract_elements extract (index + 1) vs) _
            (extract_elements-Orderly at (index + 1) vs) (λ rest. Orderly-pure at (element ∷ rest)))

  pub extract_nonempty-Orderly :
      (key complaint : String) (vs : List Value)
      → Orderly key (extract_nonempty key complaint extract vs)
  unfolding extract_nonempty
  extract_nonempty-Orderly key complaint [] = search orderly
  extract_nonempty-Orderly key complaint (v ∷ vs) = extract_elements-Orderly key 0 (v ∷ vs)

module _ {Value Float : Type 0} (json : Json Value Float) (ids : UnitIds) where
  range_of_type-Orderly :
      (at : String) (type : NumericRangeType) (obj : Value)
      → Orderly at (range_of_type json ids type obj)
  unfolding range_of_type
  range_of_type-Orderly at range obj = search scalars depth 9
  range_of_type-Orderly at value obj = search scalars depth 9

  pub extract_unit_id_range-Orderly :
      (at : String) (obj : Value) → Orderly at (extract_unit_id_range json ids obj)
  unfolding extract_unit_id_range
  extract_unit_id_range-Orderly at obj = search (scalars, range_of_type-Orderly) depth 9

  pub extract_unit_id_range_set-Orderly :
      (at : String) (obj : Value) → Orderly at (extract_unit_id_range_set json ids obj)
  unfolding extract_unit_id_range_set
  extract_unit_id_range_set-Orderly at obj =
      search (scalars, extract_nonempty-Orderly, extract_unit_id_range-Orderly) depth 12
