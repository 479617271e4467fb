-- ===== src/LimitQueue.antt =====
-- common/include/common/limit_queue.h: the bounded queue of the masters. The head of the list is
-- the front of the `std::queue`.
pub mod Laws
use modbus_gateway.Base.{
  ℕ, ◌-◌, ◌^◌, Bool, true, false, Option, none, some, List, [], ◌∷◌, ◌++◌, tail, length, ltb,
  if◌then◌else◌,
}

pub record LimitQueue {ℓ} (A : Type ℓ) : Type ℓ where
  pub queue : List A
  pub max_size : ℕ

-- std::numeric_limits<size_t>::max()
abbrev pub size_max : ℕ
size_max = 2 ^ 64 - 1

module _ {ℓ} {A : Type ℓ} where
  -- The constructor that takes the limit.
  unfoldable pub limited : ℕ → LimitQueue A
  limited max_size = record { queue = []; max_size = max_size }

  unfoldable pub unlimited : LimitQueue A
  unfolding limited
  unlimited = limited size_max

  unfoldable pub push : A → LimitQueue A → LimitQueue A
  push val q = record q { queue = room ++ val ∷ [] }
    where
      room : List A
      room = if ltb q.max_size (length q.queue) then tail q.queue else q.queue

  -- `pop` of an empty queue is undefined; the callers test `empty` first.
  unfoldable pub pop : LimitQueue A → LimitQueue A
  pop q = record q { queue = tail q.queue }

  abbrev front_of : List A → Option A
  front_of [] = none
  front_of (x ∷ xs) = some x

  -- `none` stands for the undefined `front` of an empty queue.
  unfoldable pub front : LimitQueue A → Option A
  front q = front_of q.queue

  unfoldable pub size : LimitQueue A → ℕ
  size q = length q.queue

  abbrev is_nil : List A → Bool
  is_nil [] = true
  is_nil (x ∷ xs) = false

  unfoldable pub empty : LimitQueue A → Bool
  empty q = is_nil q.queue
