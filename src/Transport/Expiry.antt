-- ===== src/Transport/Expiry.antt =====
-- Which messages the loop of the masters drops.
use modbus_gateway.Base.{
  ℕ, suc, ◌≤◌, ◌≡◌, refl, ap, Bool, true, false, List, [], ◌∷◌, ◌++◌, inl, inr, length, Bool-cases,
  arith,
}
use modbus_gateway.Message.{ModbusMessage, check_timeout, nanoseconds}
use modbus_gateway.Transport.{drop_expired}

-- What `TimeoutReached` answers for a message at a reading of the clock.
abbrev pub is_expired : {Buf : Type 0} → ℕ → ℕ → ModbusMessage Buf → Bool
is_expired timeout now m = (check_timeout (nanoseconds timeout) now m.info).0

-- Each message had reached the timeout at its own reading of the clock.
abbrev pub AllExpired : {Buf : Type 0} → ℕ → (ℕ → ℕ) → List (ModbusMessage Buf) → Type 0
AllExpired timeout clock [] = Unit
AllExpired timeout clock (m ∷ ms) =
    (is_expired timeout (clock 0) m ≡ true) × AllExpired timeout (λ i. clock (suc i)) ms

-- The first message, if there is one, had not reached the timeout at the given reading.
abbrev pub HeadIsLive : {Buf : Type 0} → ℕ → ℕ → List (ModbusMessage Buf) → Type 0
HeadIsLive timeout now [] = Unit
HeadIsLive timeout now (m ∷ ms) = is_expired timeout now m ≡ false

-- A queue is what was dropped, all of it expired, followed by what is kept, its first message live.
abbrev pub Splits :
    {Buf : Type 0} → ℕ → (ℕ → ℕ) → List (ModbusMessage Buf) → List (ModbusMessage Buf) → Type 0
Splits {Buf} timeout clock queue rest =
    (dropped : List (ModbusMessage Buf)) × (queue ≡ dropped ++ rest)
    × AllExpired timeout clock dropped
    × HeadIsLive timeout (clock (length dropped)) rest

module _ {Buf : Type 0} (timeout : ℕ) where
  pub drop_expired-here :
      (clock : ℕ → ℕ) (m : ModbusMessage Buf) (ms : List (ModbusMessage Buf))
      → is_expired timeout (clock 0) m ≡ false
      → drop_expired timeout clock (m ∷ ms) ≡ m ∷ ms
  unfolding drop_expired check_timeout
  drop_expired-here clock m ms h = ground arith

  -- The loop of the masters drops exactly the expired messages in front of the first live one, each
  -- judged at its own reading of the clock, and leaves the rest of the queue as it was, in its
  -- order.
  pub drop_expired_lem :
      (clock : ℕ → ℕ) (queue : List (ModbusMessage Buf))
      → Splits timeout clock queue (drop_expired timeout clock queue)
  unfolding drop_expired
  drop_expired_lem clock [] = ([], refl, tt, tt)
  drop_expired_lem clock (m ∷ ms) = elim (Bool-cases (is_expired timeout (clock 0) m)) [
    | inl e ↦
        let (dropped, q, x, l) = drop_expired_lem (λ i. clock (suc i)) ms in
        (m ∷ dropped, rw e (ap (◌∷◌ m) q), (e, x), rw e l)
    | inr e ↦ ([], rw (drop_expired-here clock m ms e), tt, rw (drop_expired-here clock m ms e) e)
  ]

  -- The loop adds no message.
  pub length-drop_expired :
      (clock : ℕ → ℕ) (queue : List (ModbusMessage Buf))
      → length (drop_expired timeout clock queue) ≤ length queue
  unfolding drop_expired
  length-drop_expired clock [] = omega arith
  length-drop_expired clock (m ∷ ms) = ground (arith, length-drop_expired (λ i. clock (suc i)) ms)
