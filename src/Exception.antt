-- ===== src/Exception.antt =====
-- The exceptions that the program throws, and the results of code that may throw, may run into
-- undefined behaviour, or is run on fuel.
use Prim.Native.String.{String}
use modbus_gateway.Base.{Option, none, some, Bool, true, false, ◌≡◌, refl}
use modbus_gateway.Config.ValueType.{ValueType}

-- A ParserException holds the path to the key and the key.
pub data Exception : Type 0 where
  key_not_found : String → String → Exception
  invalid_type : String → String → ValueType → ValueType → Exception
  invalid_value : String → String → String → Exception
  logic_error runtime_error system_error : String → Exception

pub data Result {ι} (T : Type ι) : Type ι where
  undefined out_of_fuel : Result T
  throws : Exception → Result T
  ok : T → Result T

-- Code that stops at the first statement that does not return.
infixl 5 ◌>>=◌ ◌>>◌
abbrev pub ◌>>=◌ {ι μ} : {S : Type ι} {T : Type μ} → Result S → (S → Result T) → Result T
undefined >>= k = undefined
out_of_fuel >>= k = out_of_fuel
throws thrown >>= k = throws thrown
ok s >>= k = k s

abbrev pub ◌>>◌ {ι} : {T : Type ι} → Result (Unit {0}) → Result T → Result T
first >> second = first >>= (λ u. second)

abbrev pub or_throw {ι} : {T : Type ι} → Exception → Option T → Result T
or_throw thrown none = throws thrown
or_throw thrown (some t) = ok t

-- `if (!test) throw …`
abbrev pub require : Bool → Exception → Result (Unit {0})
require test thrown = elim test [ true ↦ ok tt | false ↦ throws thrown ]

-- If two statements in a row return, each of them does.
pub bind_returns {ι μ} :
    {S : Type ι} {T : Type μ} (first : Result S) (next : S → Result T) {t : T}
    → (first >>= next) ≡ ok t
    → (s : S) × (first ≡ ok s) × (next s ≡ ok t)
bind_returns undefined next returned = cc
bind_returns out_of_fuel next returned = cc
bind_returns (throws thrown) next returned = cc
bind_returns (ok s) next returned = (s, refl, returned)

pub ok-injective {ι} : {T : Type ι} {s t : T} → ok s ≡ ok t → s ≡ t
ok-injective same = cc
