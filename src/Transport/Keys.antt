-- ===== src/Transport/Keys.antt =====
-- The requests in a queue of the masters, by what tells them apart.
use modbus_gateway.Base.{
  ℕ, suc, ◌≡◌, refl, ap, List, [], ◌∷◌, ◌++◌, tail, length, ltb, Bool-cases, inl, inr, arith,
  IsSublist, IsSublist-skip, IsSublist-refl, IsSublist-append_right,
}
use modbus_gateway.LimitQueue.{LimitQueue, push}
use modbus_gateway.Message.{ModbusMessage, check_timeout}
use modbus_gateway.Transport.{drop_expired}

-- What tells requests apart: the source and its transaction id.
abbrev pub Key : Type 0
Key = ℕ × ℕ

abbrev pub key_of : {Buf : Type 0} → ModbusMessage Buf → Key
key_of m = (m.info.source_id, m.info.transaction_id)

abbrev pub keys : {Buf : Type 0} → List (ModbusMessage Buf) → List Key
keys [] = []
keys (m ∷ ms) = key_of m ∷ keys ms

module _ {Buf : Type 0} where
  pub keys-drop_expired :
      (timeout : ℕ) (clock : ℕ → ℕ) (ms : List (ModbusMessage Buf))
      → IsSublist (keys (drop_expired timeout clock ms)) (keys ms)
  unfolding drop_expired check_timeout
  keys-drop_expired timeout clock [] = tt
  keys-drop_expired timeout clock (m ∷ ms) = ground (
    arith,
    keys-drop_expired timeout (λ i. clock (suc i)) ms,
    IsSublist-skip (keys (drop_expired timeout (λ i. clock (suc i)) ms)) (key_of m) (keys ms),
    IsSublist-refl (keys ms),
  )

  keys-append : (xs ys : List (ModbusMessage Buf)) → keys (xs ++ ys) ≡ keys xs ++ keys ys
  keys-append [] ys = refl
  keys-append (x ∷ xs) ys = ap (◌∷◌ (key_of x)) (keys-append xs ys)

  keys-tail : (xs : List (ModbusMessage Buf)) → IsSublist (keys (tail xs)) (keys xs)
  keys-tail [] = tt
  keys-tail (x ∷ xs) = IsSublist-skip (keys xs) (key_of x) (keys xs) (IsSublist-refl (keys xs))

  pub keys-push :
      (m : ModbusMessage Buf) (q : LimitQueue (ModbusMessage Buf))
      → IsSublist (keys (push m q).queue) (keys q.queue ++ key_of m ∷ [])
  unfolding push
  keys-push m q = elim (Bool-cases (ltb q.max_size (length q.queue))) [
    | inl e ↦
        rw (e, keys-append (tail q.queue) (m ∷ []))
          (IsSublist-append_right (keys (tail q.queue)) (keys q.queue) (key_of m ∷ [])
            (keys-tail q.queue))
    | inr e ↦ rw (e, keys-append q.queue (m ∷ [])) (IsSublist-refl (keys q.queue ++ key_of m ∷ []))
  ]
