-- ===== src/Gateway/Outcomes.antt =====
-- The outcomes of the start that are not called bugs.
use modbus_gateway.Base.{◌≡◌, ◌≢◌, refl, List, [], ◌∷◌}
use modbus_gateway.Exception.{
  Result, ok, throws, undefined, out_of_fuel, logic_error, system_error, runtime_error,
  key_not_found, invalid_type, invalid_value, ◌>>=◌,
}
use modbus_gateway.Config.Extract.Orderly.{IsDiagnosed}
use modbus_gateway.Gateway.Startup.{is_empty, throw_if}
use Prim.Native.String.{String}

-- The code ended well, with a result as described, or an exception came from the system.
abbrev pub EndsWell : {A : Type 0} → (A → Type 0) → Result A → Type 0
EndsWell P (ok a) = P a
EndsWell P (throws (system_error s)) = Unit
EndsWell P _ = ⊥

pub EndsWell-bind :
    {A B : Type 0} (P : A → Type 0) (Q : B → Type 0) (m : Result A) (f : A → Result B)
    → EndsWell P m
    → ((a : A) → m ≡ ok a → P a → EndsWell Q (f a))
    → EndsWell Q (m >>= f)
EndsWell-bind P Q (ok a) f w k = k a refl w
EndsWell-bind P Q (throws (system_error s)) f w k = tt
EndsWell-bind P Q (throws (logic_error s)) f w k = absurd w
EndsWell-bind P Q undefined f w k = absurd w
EndsWell-bind P Q out_of_fuel f w k = absurd w
EndsWell-bind P Q _ f w k = absurd w

pub EndsWell-nonempty :
    {A : Type 0} (xs : List A) (message : String)
    → xs ≢ []
    → EndsWell (λ _. Unit {0}) (throw_if (is_empty xs) message)
EndsWell-nonempty [] message n = absurd (n refl)
EndsWell-nonempty (x ∷ xs) message n = tt

-- A run of the whole program: a result as described, or an exception that names what is wrong with
-- the configuration or with a port or an address.
abbrev pub RunsWell : {A : Type 0} → (A → Type 0) → Result A → Type 0
RunsWell P (ok a) = P a
RunsWell P (throws (logic_error s)) = ⊥
RunsWell P (throws e) = Unit
RunsWell P undefined = ⊥
RunsWell P out_of_fuel = ⊥

pub EndsWell-RunsWell : {A : Type 0} (P : A → Type 0) (m : Result A) → EndsWell P m → RunsWell P m
EndsWell-RunsWell P (ok a) w = w
EndsWell-RunsWell P (throws (system_error s)) w = tt
EndsWell-RunsWell P (throws (logic_error s)) w = absurd w
EndsWell-RunsWell P undefined w = absurd w
EndsWell-RunsWell P out_of_fuel w = absurd w
EndsWell-RunsWell P _ w = absurd w

pub RunsWell-bind :
    {A B : Type 0} (P : A → Type 0) (Q : B → Type 0) (m : Result A) (f : A → Result B)
    → RunsWell P m
    → ((a : A) → P a → RunsWell Q (f a))
    → RunsWell Q (m >>= f)
RunsWell-bind P Q (ok a) f w k = k a w
RunsWell-bind P Q (throws (logic_error s)) f w k = absurd w
RunsWell-bind P Q undefined f w k = absurd w
RunsWell-bind P Q out_of_fuel f w k = absurd w
RunsWell-bind P Q (throws (key_not_found p s)) f w k = tt
RunsWell-bind P Q (throws (invalid_type p s e a)) f w k = tt
RunsWell-bind P Q (throws (invalid_value p s v)) f w k = tt
RunsWell-bind P Q (throws (runtime_error s)) f w k = tt
RunsWell-bind P Q (throws (system_error s)) f w k = tt

-- What a reader returns, if all that it returns is as described.
pub IsDiagnosed-RunsWell :
    {A : Type 0} (P : A → Type 0) (m : Result A)
    → IsDiagnosed m
    → ((a : A) → m ≡ ok a → P a)
    → RunsWell P m
IsDiagnosed-RunsWell P (ok a) d h = h a refl
IsDiagnosed-RunsWell P (throws (key_not_found p s)) d h = tt
IsDiagnosed-RunsWell P (throws (invalid_type p s e a)) d h = tt
IsDiagnosed-RunsWell P (throws (invalid_value p s v)) d h = tt
IsDiagnosed-RunsWell P (throws (system_error s)) d h = tt
IsDiagnosed-RunsWell P (throws (runtime_error s)) d h = absurd d
IsDiagnosed-RunsWell P (throws (logic_error s)) d h = absurd d
IsDiagnosed-RunsWell P undefined d h = absurd d
IsDiagnosed-RunsWell P out_of_fuel d h = absurd d
