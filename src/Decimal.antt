-- ===== src/Decimal.antt =====
-- std::to_string of an unsigned number.
use Prim.Native.String.{String}
use Prim.Native.String
use modbus_gateway.Base.{ℕ, zero, suc, ◌%◌, ltb, if◌then◌else◌, ◌≡◌, refl}
use Prim.Native.Nat.{◌/◌}

abbrev digit : ℕ → String
digit zero = "0"
digit (suc zero) = "1"
digit (suc (suc zero)) = "2"
digit (suc (suc (suc zero))) = "3"
digit (suc (suc (suc (suc zero)))) = "4"
digit (suc (suc (suc (suc (suc zero))))) = "5"
digit (suc (suc (suc (suc (suc (suc zero)))))) = "6"
digit (suc (suc (suc (suc (suc (suc (suc zero))))))) = "7"
digit (suc (suc (suc (suc (suc (suc (suc (suc zero)))))))) = "8"
digit _ = "9"

-- More fuel than there are digits: each round divides the number by ten.
decimal : ℕ → ℕ → String
decimal zero n = ""
decimal (suc fuel) n =
    let front : String = decimal fuel (n / 10) in
    if ltb n 10 then digit n else String.◌++◌ front (digit (n % 10))

unfoldable pub to_string : ℕ → String
unfolding decimal
to_string n = decimal (suc n) n

two_digits : to_string 47 ≡ "47"
unfolding to_string
two_digits = refl
