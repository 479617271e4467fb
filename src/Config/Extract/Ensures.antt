-- ===== src/Config/Extract/Ensures.antt =====
-- What holds of a value that was read without an exception.
use Prim.Native.String.{String}
use modbus_gateway.Base.{Bool, true, false, ◌≡◌, ◌≢◌, subst, refl, if◌then◌else◌}
use modbus_gateway.Exception.{Result, ok, ok-injective, throws, undefined, out_of_fuel}
use modbus_gateway.Config.TracePath.{TracePath, push}
use modbus_gateway.Config.Extract.{Extract, continue, ◌>>=◌, pure, trace_deep, throw_invalid_value}

pub record Ensures {ℓ κ} {A : Type ℓ} (P : A → Type κ) (m : Extract A) : Type (ℓ ⊔ κ) where
  pub holds : (path : TracePath) (a : A) → (m path).0 ≡ ok a → P a

module _ {ℓ κ} {A : Type ℓ} (P : A → Type κ) where
  pub Ensures-pure : (a : A) → P a → Ensures P (pure a)
  Ensures-pure a p = record { holds = λ path b e. subst P (ok-injective e) p }

  -- Code that only throws ensures anything.
  pub Ensures-throws :
      (m : Extract A) → ((path : TracePath) (a : A) → (m path).0 ≢ ok a) → Ensures P m
  Ensures-throws m h = record { holds = λ path a e. absurd (h path a e) }

  pub Ensures-throw_invalid_value : (key value : String) → Ensures P (throw_invalid_value key value)
  Ensures-throw_invalid_value key value =
      Ensures-throws (throw_invalid_value key value) (λ path a e. cc)

  pub Ensures-trace_deep :
      (key : String) (m : Extract A) → Ensures P m → Ensures P (trace_deep key m)
  Ensures-trace_deep key m r = record { holds = λ path. r.holds (push key path) }

  pub Ensures-if :
      (b : Bool) (m n : Extract A)
      → (b ≡ true → Ensures P m)
      → (b ≡ false → Ensures P n)
      → Ensures P (if b then m else n)
  Ensures-if true m n r s = r refl
  Ensures-if false m n r s = s refl

  pub Ensures-bind {ι μ} :
      {B : Type ι} (Q : B → Type μ) (m : Extract B) (f : B → Extract A)
      → Ensures Q m
      → ((b : B) → Q b → Ensures P (f b))
      → Ensures P (m >>= f)
  Ensures-bind Q m f r s = record {
    holds = λ path a e. ends (m path).0 (m path).1 (r.holds path) a e;
  }
    where
      ends :
          (x : Result _) (path : TracePath)
          → ((b : _) → x ≡ ok b → Q b)
          → (a : A) → (continue x path f).0 ≡ ok a
          → P a
      ends (ok b) path q a e = (s b (q b refl)).holds path a e
      ends (throws t) path q a e = cc
      ends undefined path q a e = cc
      ends out_of_fuel path q a e = cc

pub Ensures-any {ℓ} : {A : Type ℓ} (m : Extract A) → Ensures (λ _. Unit {0}) m
Ensures-any m = record { holds = λ path a e. tt }
