-- ===== src/Config/Extract.antt =====
-- Code that reads a JSON value with a TracePath at hand, and may throw.
pub mod Orderly
pub mod Ensures
pub mod Reads
use Prim.Native.String.{String}
use modbus_gateway.Base.{ℕ, Bool, true, false, Option, none, some, ◌≡◌, refl}
use modbus_gateway.Exception.{
  Result, ok, throws, undefined, out_of_fuel, Exception, key_not_found, invalid_type, invalid_value,
  logic_error, system_error,
}
use modbus_gateway.Config.ValueType.{ValueType}
use modbus_gateway.Config.TracePath.{TracePath, push, pop, get_path}

-- The path is shared and changed in place: it is passed along, also when an exception is thrown.
abbrev pub Extract {ℓ} : Type ℓ → Type ℓ
Extract A = TracePath → Result A × TracePath

abbrev pub continue {ℓ κ} :
    {A : Type ℓ} {B : Type κ} → Result A → TracePath → (A → Extract B) → Result B × TracePath
continue (ok a) path f = f a path
continue (throws e) path f = (throws e, path)
continue undefined path f = (undefined, path)
continue out_of_fuel path f = (out_of_fuel, path)

infixl 5 ◌>>=◌ ◌>>◌
abbrev pub ◌>>=◌ {ℓ κ} : {A : Type ℓ} {B : Type κ} → Extract A → (A → Extract B) → Extract B
◌>>=◌ m f path = let (r, path') = m path in continue r path' f

abbrev pub ◌>>◌ {ℓ} : {B : Type ℓ} → Extract (Unit {0}) → Extract B → Extract B
m >> k = m >>= λ _. k

abbrev pub pure {ℓ} : {A : Type ℓ} → A → Extract A
pure a path = (ok a, path)

-- The life of a TraceDeep: its constructor pushes the key, its destructor pops, on an exception too.
abbrev pub trace_deep {ℓ} : {A : Type ℓ} → String → Extract A → Extract A
trace_deep key body path = let (r, path') = body (push key path) in (r, pop path')

-- `throw KeyNotFoundException(td)` and the like, where `td` holds the key.
abbrev pub throw_key_not_found {ℓ} : {A : Type ℓ} → String → Extract A
throw_key_not_found key path = (throws (key_not_found (get_path path) key), path)

abbrev pub throw_invalid_type {ℓ} : {A : Type ℓ} → String → ValueType → ValueType → Extract A
throw_invalid_type key expect actual path =
    (throws (invalid_type (get_path path) key expect actual), path)

abbrev pub throw_invalid_value {ℓ} : {A : Type ℓ} → String → String → Extract A
throw_invalid_value key value path = (throws (invalid_value (get_path path) key value), path)

-- An exception that knows no path.
abbrev pub throw {ℓ} : {A : Type ℓ} → Exception → Extract A
throw e path = (throws e, path)

-- `if (!opt.has_value()) throw …`
abbrev pub or_else_throw {ℓ} : {A : Type ℓ} → Extract A → Option A → Extract A
or_else_throw thrown none = thrown
or_else_throw thrown (some a) = pure a

-- `if (obj.end() == it) { return std::nullopt; }`
abbrev pub when_found {ℓ κ} :
    {A : Type ℓ} {B : Type κ} → (A → Extract (Option B)) → Option A → Extract (Option B)
when_found f none = pure none
when_found f (some a) = f a
