-- ===== src/Transport/Counts.antt =====
-- The counts of the effects of several steps.
use modbus_gateway.Base.{◌+◌, ◌≡◌, List, [], ◌∷◌, ◌++◌, arith}
use modbus_gateway.Transport.{Effect, sends_of, requests_of}

module _ {Buf : Type 0} where
  pub sends_of-append :
      (xs ys : List (Effect Buf)) → sends_of (xs ++ ys) ≡ sends_of xs + sends_of ys
  sends_of-append [] ys = omega arith
  sends_of-append (x ∷ xs) ys = ground (arith, sends_of-append xs ys)

  pub requests_of-append :
      (xs ys : List (Effect Buf)) → requests_of (xs ++ ys) ≡ requests_of xs + requests_of ys
  requests_of-append [] ys = omega arith
  requests_of-append (x ∷ xs) ys = ground (arith, requests_of-append xs ys)
