-- ===== src/LimitQueue/Laws.antt =====
-- What the bounded queue promises.
use modbus_gateway.Base.{
  ℕ, suc, ◌≤◌, ◌≡◌, refl, List, [], ◌∷◌, ◌++◌, tail, length, length-append, All, All-append,
  All-tail, Bool-cases, ltb, inl, inr, arith,
}
use modbus_gateway.LimitQueue.{LimitQueue, push, size}

module _ {ℓ} {A : Type ℓ} where
  length-tail : (xs : List A) {n : ℕ} → length xs ≤ suc n → length (tail xs) ≤ n
  length-tail [] h = omega arith
  length-tail (x ∷ xs) h = omega arith

  -- A push onto a bounded queue that is at most one above its limit gives a queue that is at most
  -- one above its limit, and keeps the limit.
  pub push_bounds :
      (val : A) (q : LimitQueue A)
      → size q ≤ suc q.max_size
      → (size (push val q) ≤ suc (push val q).max_size) × ((push val q).max_size ≡ q.max_size)
  unfolding push size
  push_bounds val q h = ground (
    arith,
    length-append q.queue (val ∷ []),
    length-append (tail q.queue) (val ∷ []),
    length-tail q.queue {n = q.max_size},
  )

  -- A push onto a bounded queue of the size of its limit drops nothing: it appends, and gives a
  -- queue one longer than the limit.
  pub push_exceeds :
      (val : A) (q : LimitQueue A)
      → size q ≡ q.max_size
      → (size (push val q) ≡ suc (push val q).max_size) × ((push val q).queue ≡ q.queue ++ val ∷ [])
  unfolding push size
  push_exceeds val q h = ground (arith, length-append q.queue (val ∷ []))

  -- Within the limit the queue is first in, first out: a push appends.
  pub push_within :
      (val : A) (q : LimitQueue A) → size q ≤ q.max_size → (push val q).queue ≡ q.queue ++ val ∷ []
  unfolding push size
  push_within val q h = ground arith

  -- A queue is not empty after a push.
  pub push-nonempty :
      (val : A) (q : LimitQueue A) → (x : A) × (xs : List A) × ((push val q).queue ≡ x ∷ xs)
  unfolding push
  push-nonempty val q = append-nonempty _
    where
      append-nonempty : (ys : List A) → (x : A) × (xs : List A) × (ys ++ val ∷ [] ≡ x ∷ xs)
      append-nonempty [] = (val, [], refl)
      append-nonempty (y ∷ ys) = (y, ys ++ val ∷ [], refl)

  tail-le : (xs : List A) → length (tail xs) ≤ length xs
  tail-le [] = omega arith
  tail-le (x ∷ xs) = omega arith

  -- A push makes a queue at most one longer.
  pub length-push : (val : A) (q : LimitQueue A) → length (push val q).queue ≤ suc (length q.queue)
  unfolding push
  length-push val q = ground (
    arith,
    length-append q.queue (val ∷ []),
    length-append (tail q.queue) (val ∷ []),
    tail-le q.queue,
  )

  -- What holds of the pushed value and of all queued ones holds of all queued ones after it.
  pub All-push {κ} :
      (P : A → Type κ) (val : A) (q : LimitQueue A)
      → All P q.queue
      → P val
      → All P (push val q).queue
  unfolding push
  All-push P val q h p = elim (Bool-cases (ltb q.max_size (length q.queue))) [
    | inl e ↦ rw e (All-append P (tail q.queue) val (All-tail P q.queue h) p)
    | inr e ↦ rw e (All-append P q.queue val h p)
  ]
