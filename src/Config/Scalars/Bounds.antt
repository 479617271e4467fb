-- ===== src/Config/Scalars/Bounds.antt =====
-- The ranges of the numbers that the readers of single keys return.
use Prim.Native.String.{String}
use modbus_gateway.Base.{ℕ, ◌≤◌, ◌||◌, ltb, ◌==◌, arith}
use modbus_gateway.Modbus.{UnitIds}
use modbus_gateway.Config.ValueType.{number}
use modbus_gateway.Config.Json.{Json}
use modbus_gateway.Config.Extract.Ensures.{
  Ensures, Ensures-pure, Ensures-throw_invalid_value, Ensures-trace_deep, Ensures-if, Ensures-bind,
  Ensures-any,
}
use modbus_gateway.Config.Scalars.{
  find_object, check_type, extract_ip_port, extract_modbus_unit_id, extract_unsigned_number,
}

abbrev pub IsPort : ℕ → Type 0
IsPort n = (1 ≤ n) × (n ≤ 65535)

abbrev pub IsUnitId : UnitIds → ℕ → Type 0
IsUnitId ids n = (ids.min ≤ n) × (n ≤ ids.max)

module _ {Value Float : Type 0} (json : Json Value Float) where
  -- A port that is read without an exception lies between 1 and 65535.
  pub extract_ip_port-Ensures : (obj : Value) → Ensures IsPort (extract_ip_port json obj)
  unfolding extract_ip_port
  extract_ip_port-Ensures obj = Ensures-trace_deep IsPort "ip_port" _ (
      Ensures-bind IsPort (λ _. Unit {0}) _ _ (Ensures-any (find_object json "ip_port" obj))
        (λ val _.
          Ensures-bind IsPort (λ _. Unit {0}) _ _
            (Ensures-any (check_type json "ip_port" val number))
            (λ _ _.
              Ensures-if IsPort (json.get_uint64 val == 0 || ltb 65535 (json.get_uint64 val)) _ _
                (λ _. Ensures-throw_invalid_value IsPort "ip_port" _)
                (λ h. Ensures-pure IsPort (json.get_uint64 val) (ground arith)))))

  -- A unit id that is read without an exception lies between the smallest and the largest unit id.
  pub extract_modbus_unit_id-Ensures :
      (ids : UnitIds) (obj : Value) (key : String)
      → Ensures (IsUnitId ids) (extract_modbus_unit_id json ids obj key)
  unfolding extract_modbus_unit_id
  extract_modbus_unit_id-Ensures ids obj key =
      Ensures-bind (IsUnitId ids) (λ _. Unit {0}) _ _
        (Ensures-any (extract_unsigned_number json ids.limit obj key))
        (λ n _.
          Ensures-if (IsUnitId ids) (ltb n ids.min || ltb ids.max n) _ _
            (λ _.
              Ensures-trace_deep (IsUnitId ids) key _
                (Ensures-throw_invalid_value (IsUnitId ids) key _))
            (λ h. Ensures-pure (IsUnitId ids) n (ground arith)))
