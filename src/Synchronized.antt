-- ===== src/Synchronized.antt =====
-- src/common/include/common/synchronized.h: a value that is reached only through its mutex.
use modbus_gateway.Base.{ℕ, Option, none, some}

pub record Synchronized (T : Type 0) : Type 0 where
  pub value : T
  -- the thread whose Access holds the mutex
  pub holder : Option ℕ

-- The constructor.
abbrev pub make_synchronized : {T : Type 0} → T → Synchronized T
make_synchronized initial = record { value = initial; holder = none }

-- GetAccess by a thread: `none` while the mutex is held, when the thread waits.
abbrev pub get_access : {T : Type 0} → ℕ → Synchronized T → Option (Synchronized T)
get_access i s = elim s.holder [ none ↦ some (record s { holder = some i }) | some j ↦ none ]

-- A write through the reference of an Access.
abbrev pub write : {T : Type 0} → T → Synchronized T → Synchronized T
write value s = record s { value = value }

-- The end of an Access.
abbrev pub release : {T : Type 0} → Synchronized T → Synchronized T
release s = record s { holder = none }
