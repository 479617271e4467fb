-- ===== src/Config/Scalars/Paths.antt =====
-- The path that an exception about a missing key names.
use Prim.Native.String.{String}
use modbus_gateway.Base.{arith, none, refl, ◌≡◌, ◌∷◌}
use modbus_gateway.Exception.{throws, key_not_found}
use modbus_gateway.Config.TracePath.{TracePath, get_path}
use modbus_gateway.Config.Json.{Json}
use modbus_gateway.Config.Scalars.{find_object, extract_string, extract_numeric_range_type}

module _ {Value Float : Type 0} (json : Json Value Float) where
  extract_string_missing :
      (obj : Value) (key : String) (path : TracePath)
      → json.find key obj ≡ none
      → (extract_string json obj key path).0 ≡ throws (key_not_found (get_path (key ∷ path)) key)
  unfolding extract_string find_object
  extract_string_missing obj key path e = rw e refl

  -- If the key is missing, the exception of ExtractString names the path of the object with the key
  -- after it; that of ExtractNumericRangeType, for the key "type", names the key twice.
  pub extract_numeric_range_type_missing :
      (obj : Value) (path : TracePath)
      → json.find "type" obj ≡ none
      → ((extract_string json obj "type" path).0
          ≡ throws (key_not_found (get_path ("type" ∷ path)) "type"))
        × ((extract_numeric_range_type json obj path).0
            ≡ throws (key_not_found (get_path ("type" ∷ "type" ∷ path)) "type"))
  unfolding extract_numeric_range_type
  extract_numeric_range_type_missing obj path e = (
    extract_string_missing obj "type" path e,
    ground (arith, extract_string_missing obj "type" ("type" ∷ path) e),
  )
