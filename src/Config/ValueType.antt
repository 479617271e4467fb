-- ===== src/Config/ValueType.antt =====
-- config/value_type.cpp: the kinds of JSON values as the configuration reports them.
use Prim.Native.String.{String}

pub data ValueType : Type 0 where
  unknown object array string boolean number : ValueType

-- nlohmann::json::value_t, with the enumerators that the program names.
pub data JsonType : Type 0 where
  object array string boolean number_integer number_unsigned number_float null binary discarded :
      JsonType

unfoldable pub convert_json_type : JsonType → ValueType
convert_json_type JsonType.object = ValueType.object
convert_json_type JsonType.array = ValueType.array
convert_json_type JsonType.string = ValueType.string
convert_json_type JsonType.boolean = ValueType.boolean
convert_json_type JsonType.number_integer = ValueType.number
convert_json_type JsonType.number_unsigned = ValueType.number
convert_json_type JsonType.number_float = ValueType.number
convert_json_type JsonType.null = ValueType.unknown
convert_json_type JsonType.binary = ValueType.unknown
convert_json_type JsonType.discarded = ValueType.unknown

unfoldable pub value_type_to_string : ValueType → String
value_type_to_string ValueType.object = "object"
value_type_to_string ValueType.array = "array"
value_type_to_string ValueType.string = "string"
value_type_to_string ValueType.boolean = "boolean"
value_type_to_string ValueType.number = "number"
value_type_to_string ValueType.unknown = "unknown"
