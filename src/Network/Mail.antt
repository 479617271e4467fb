-- ===== src/Network/Mail.antt =====
-- Taking a message out of the mail.
use modbus_gateway.Base.{ℕ, zero, suc, ◌≡◌, subst, some, List, [], ◌∷◌, get_elem?, All}
use modbus_gateway.Network.{remove}

pub remove-All :
    {A : Type 0} (P : A → Type 0) (xs : List A) (k : ℕ) → All P xs → All P (remove xs k)
remove-All P [] k h = tt
remove-All P (x ∷ xs) zero h = h.1
remove-All P (x ∷ xs) (suc k) h = (h.0, remove-All P xs k h.1)

pub get_elem?-All :
    {A : Type 0} (P : A → Type 0) (xs : List A) (k : ℕ) (x : A)
    → All P xs
    → get_elem? xs k ≡ some x
    → P x
get_elem?-All P [] k x h e = cc
get_elem?-All P (y ∷ ys) zero x h e = subst P (some-injective e) h.0
  where
    some-injective : {A : Type 0} {a b : A} → some a ≡ some b → a ≡ b
    some-injective q = cc
get_elem?-All P (y ∷ ys) (suc k) x h e = get_elem?-All P ys k x h.1 e
