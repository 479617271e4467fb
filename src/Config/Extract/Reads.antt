-- ===== src/Config/Extract/Reads.antt =====
-- What a reader reads: the value, with the path left as it was.
use Prim.Native.String.{String}
use modbus_gateway.Base.{Bool, true, false, Option, none, some, ◌≡◌, refl, ap, ◌∙◌, if◌then◌else◌}
use modbus_gateway.Exception.{ok}
use modbus_gateway.Config.TracePath.{TracePath, push, pop}
use modbus_gateway.Config.Extract.{
  Extract, continue, ◌>>=◌, pure, trace_deep, when_found, or_else_throw,
}

abbrev pub Reads {ℓ} : {A : Type ℓ} → Extract A → A → Type ℓ
Reads m a = (path : TracePath) → m path ≡ (ok a, path)

module _ {ℓ} {A : Type ℓ} where
  pub Reads-pure : (a : A) → Reads (pure a) a
  Reads-pure a path = refl

  pub Reads-trace_deep :
      (key : String) (m : Extract A) (a : A) → Reads m a → Reads (trace_deep key m) a
  Reads-trace_deep key m a r path = ap (λ out. (out.0, pop out.1)) (r (push key path))

  pub Reads-bind {κ} :
      {B : Type κ} (m : Extract B) (f : B → Extract A) (b : B) (a : A)
      → Reads m b
      → Reads (f b) a
      → Reads (m >>= f) a
  Reads-bind m f b a r s path = ap (λ out. continue out.0 out.1 f) (r path) ∙ s path

  pub Reads-or_else_throw :
      (thrown : Extract A) (o : Option A) (a : A) → o ≡ some a → Reads (or_else_throw thrown o) a
  Reads-or_else_throw thrown o a e path = ap (λ x. or_else_throw thrown x path) e

  pub Reads-else :
      (b : Bool) (m n : Extract A) (a : A) → b ≡ false → Reads n a → Reads (if b then m else n) a
  Reads-else b m n a e r path = ap (λ x. (if x then m else n) path) e ∙ r path

  pub Reads-then :
      (b : Bool) (m n : Extract A) (a : A) → b ≡ true → Reads m a → Reads (if b then m else n) a
  Reads-then b m n a e r path = ap (λ x. (if x then m else n) path) e ∙ r path

  pub Reads-found {κ} :
      {B : Type κ} (f : B → Extract (Option A)) (o : Option B) (b : B) (a : Option A)
      → o ≡ some b
      → Reads (f b) a
      → Reads (when_found f o) a
  Reads-found f o b a e r path = ap (λ x. when_found f x path) e ∙ r path

  pub Reads-missing {κ} :
      {B : Type κ} (f : B → Extract (Option A)) (o : Option B)
      → o ≡ none
      → Reads (when_found f o) none
  Reads-missing f o e path = ap (λ x. when_found f x path) e
