-- ===== src/Config/Extract/Orderly.antt =====
-- Code that leaves the path as it found it, and throws only what a reader may throw, with the path to
-- the key.
use Prim.Native.String.{String}
use modbus_gateway.Base.{
  Bool, true, false, Option, none, some, List, [], ◌∷◌, ◌++◌, ◌≡◌, refl, sym, ap, subst,
  if◌then◌else◌,
}
use modbus_gateway.Exception.{
  Result, ok, throws, undefined, out_of_fuel, key_not_found, invalid_type, invalid_value,
  logic_error, runtime_error, system_error,
}
use modbus_gateway.Config.ValueType.{ValueType}
use modbus_gateway.Config.TracePath.{TracePath, pop, get_path}
use modbus_gateway.Config.Extract.{
  Extract, continue, ◌>>=◌, pure, trace_deep, throw_key_not_found, throw_invalid_type,
  throw_invalid_value, throw, or_else_throw, when_found,
}

-- A result, or an exception of the parser or of asio.
abbrev pub IsDiagnosed {ℓ} : {A : Type ℓ} → Result A → Type 0
IsDiagnosed (ok a) = Unit
IsDiagnosed (throws (key_not_found path key)) = Unit
IsDiagnosed (throws (invalid_type path key expect actual)) = Unit
IsDiagnosed (throws (invalid_value path key value)) = Unit
IsDiagnosed (throws (system_error what)) = Unit
IsDiagnosed (throws (logic_error what)) = ⊥
IsDiagnosed (throws (runtime_error what)) = ⊥
IsDiagnosed undefined = ⊥
IsDiagnosed out_of_fuel = ⊥

-- The key where a path ends.
abbrev pub last_key : TracePath → Option String
last_key [] = none
last_key (key ∷ path) = some key

-- The text is the path to the key: it goes on from where the reader stands, and ends with the key.
abbrev pub IsPathTo : TracePath → String → String → Type 0
IsPathTo path full key =
    (inner : List String) × (full ≡ get_path (inner ++ path))
    × (last_key (inner ++ path) ≡ some key)

-- As before, and an exception of the parser has the path to its key.
abbrev pub IsTold {ℓ} : {A : Type ℓ} → TracePath → Result A → Type 0
IsTold path (throws (key_not_found full key)) = IsPathTo path full key
IsTold path (throws (invalid_type full key expect actual)) = IsPathTo path full key
IsTold path (throws (invalid_value full key value)) = IsPathTo path full key
IsTold path r = IsDiagnosed r

pub IsTold-IsDiagnosed {ℓ} :
    {A : Type ℓ} (path : TracePath) (r : Result A) → IsTold path r → IsDiagnosed r
IsTold-IsDiagnosed path (ok a) h = tt
IsTold-IsDiagnosed path (throws (key_not_found full key)) h = tt
IsTold-IsDiagnosed path (throws (invalid_type full key expect actual)) h = tt
IsTold-IsDiagnosed path (throws (invalid_value full key value)) h = tt
IsTold-IsDiagnosed path (throws (system_error what)) h = tt
IsTold-IsDiagnosed path (throws (logic_error what)) h = h
IsTold-IsDiagnosed path (throws (runtime_error what)) h = h
IsTold-IsDiagnosed path undefined h = h
IsTold-IsDiagnosed path out_of_fuel h = h

append-key :
    (inner : List String) (key : String) (path : TracePath)
    → inner ++ (key ∷ path) ≡ (inner ++ (key ∷ [])) ++ path
append-key [] key path = refl
append-key (k ∷ inner) key path = ap (λ ks. k ∷ ks) (append-key inner key path)

IsPathTo-pop :
    (k : String) (path : TracePath) (full key : String)
    → IsPathTo (k ∷ path) full key
    → IsPathTo path full key
IsPathTo-pop k path full key (inner, e, h) = (
  inner ++ (k ∷ []),
  subst (λ ks. full ≡ get_path ks) (append-key inner k path) e,
  subst (λ ks. last_key ks ≡ some key) (append-key inner k path) h,
)

-- Below the key, code leaves the path as it found it, and tells what is wrong.
pub record Orderly {ℓ} {A : Type ℓ} (at : String) (m : Extract A) : Type ℓ where
  pub same : (path : TracePath) → (m (at ∷ path)).1 ≡ at ∷ path
  pub told : (path : TracePath) → IsTold (at ∷ path) (m (at ∷ path)).0

IsTold-pop {ℓ} :
    {A : Type ℓ} (k : String) (path : TracePath) (r : Result A)
    → IsTold (k ∷ path) r
    → IsTold path r
IsTold-pop k path (ok a) h = tt
IsTold-pop k path (throws (key_not_found full key)) h = IsPathTo-pop k path full key h
IsTold-pop k path (throws (invalid_type full key expect actual)) h = IsPathTo-pop k path full key h
IsTold-pop k path (throws (invalid_value full key value)) h = IsPathTo-pop k path full key h
IsTold-pop k path (throws (system_error what)) h = tt
IsTold-pop k path (throws (logic_error what)) h = h
IsTold-pop k path (throws (runtime_error what)) h = h
IsTold-pop k path undefined h = h
IsTold-pop k path out_of_fuel h = h

module _ {ℓ} {A : Type ℓ} where
  pub Orderly-pure : (at : String) (a : A) → Orderly at (pure a)
  Orderly-pure at a = record { same = λ path. refl; told = λ path. tt }

  pub Orderly-throw : (at what : String) → Orderly at (throw {A = A} (system_error what))
  Orderly-throw at what = record { same = λ path. refl; told = λ path. tt }

  pub Orderly-throw_key_not_found : (key : String) → Orderly key (throw_key_not_found {A = A} key)
  Orderly-throw_key_not_found key = record { same = λ path. refl; told = λ path. ([], refl, refl) }

  pub Orderly-throw_invalid_type :
      (key : String) (e a : ValueType) → Orderly key (throw_invalid_type {A = A} key e a)
  Orderly-throw_invalid_type key e a = record {
    same = λ path. refl;
    told = λ path. ([], refl, refl);
  }

  pub Orderly-throw_invalid_value :
      (key value : String) → Orderly key (throw_invalid_value {A = A} key value)
  Orderly-throw_invalid_value key value = record {
    same = λ path. refl;
    told = λ path. ([], refl, refl);
  }

  pub Orderly-trace_deep :
      (at key : String) (m : Extract A) → Orderly key m → Orderly at (trace_deep key m)
  Orderly-trace_deep at key m r = record {
    same = λ path. ap pop (r.same (at ∷ path));
    told = λ path. IsTold-pop key (at ∷ path) _ (r.told (at ∷ path));
  }

  pub Orderly-or_else_throw :
      (at : String) (thrown : Extract A) (o : Option A)
      → Orderly at thrown
      → Orderly at (or_else_throw thrown o)
  Orderly-or_else_throw at thrown none r = r
  Orderly-or_else_throw at thrown (some a) r = record { same = λ path. refl; told = λ path. tt }

  pub Orderly-if :
      (at : String) (b : Bool) (m n : Extract A)
      → Orderly at m
      → Orderly at n
      → Orderly at (if b then m else n)
  Orderly-if at true m n r s = r
  Orderly-if at false m n r s = s

  pub Orderly-bind {κ} :
      {B : Type κ} (at : String) (m : Extract B) (f : B → Extract A)
      → Orderly at m
      → ((b : B) → Orderly at (f b))
      → Orderly at (m >>= f)
  Orderly-bind at m f r s = record {
    same = λ path. ends (m (at ∷ path)).0 (m (at ∷ path)).1 path (r.same path);
    told = λ path. tells (m (at ∷ path)).0 (m (at ∷ path)).1 path (r.same path) (r.told path);
  }
    where
      ends :
          (x : Result _) (after path : TracePath)
          → after ≡ at ∷ path
          → (continue x after f).1 ≡ at ∷ path
      ends (ok b) after path e = subst (λ q. (f b q).1 ≡ at ∷ path) (sym e) ((s b).same path)
      ends (throws t) after path e = e
      ends undefined after path e = e
      ends out_of_fuel after path e = e

      tells :
          (x : Result _) (after path : TracePath)
          → after ≡ at ∷ path
          → IsTold (at ∷ path) x
          → IsTold (at ∷ path) (continue x after f).0
      tells (ok b) after path e d =
          subst (λ q. IsTold (at ∷ path) (f b q).0) (sym e) ((s b).told path)
      tells (throws (key_not_found p k)) after path e d = d
      tells (throws (invalid_type p k t a)) after path e d = d
      tells (throws (invalid_value p k v)) after path e d = d
      tells (throws (system_error what)) after path e d = tt
      tells (throws (logic_error what)) after path e d = absurd d
      tells (throws (runtime_error what)) after path e d = absurd d
      tells undefined after path e d = absurd d
      tells out_of_fuel after path e d = absurd d

module _ {ℓ κ} {A : Type ℓ} {B : Type κ} where
  pub Orderly-when_found :
      (at : String) (f : A → Extract (Option B)) (o : Option A)
      → ((a : A) → Orderly at (f a))
      → Orderly at (when_found f o)
  Orderly-when_found at f none r = record { same = λ path. refl; told = λ path. tt }
  Orderly-when_found at f (some a) r = r a

pub ruleset orderly = (
  Orderly-pure, Orderly-throw, Orderly-throw_key_not_found, Orderly-throw_invalid_type,
  Orderly-throw_invalid_value, Orderly-trace_deep, Orderly-or_else_throw, Orderly-if, Orderly-bind,
  Orderly-when_found,
)
