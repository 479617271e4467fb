-- ===== src/Message/Timeout.antt =====
-- The cached timeout of a message.
use modbus_gateway.Base.{ℕ, ◌+◌, ◌≤◌, ◌≡◌, true, leb, arith}
use modbus_gateway.Message.{ModbusMessageInfo, check_timeout}

-- The flag is set only if the timeout had passed by the time of the last query.
abbrev pub IsCoherent : ℕ → ℕ → ModbusMessageInfo → Type 0
IsCoherent timeout last info = info.timeout_reached ≡ true → info.create_timestamp + timeout ≤ last

-- If the cached flag of a message is set only if the timeout had passed by an earlier reading of
-- the clock, then TimeoutReached holds at a later reading exactly when the timeout has passed since
-- the creation. The flag is then set only if the timeout has passed by the later reading, and the
-- creation time, the source and the transaction id are as before.
pub check_timeout_exact :
    (timeout last now : ℕ) (info : ModbusMessageInfo)
    → IsCoherent timeout last info
    → last ≤ now
    → let (reached, info') = check_timeout timeout now info in
      (reached ≡ leb (info.create_timestamp + timeout) now)
      × IsCoherent timeout now info'
      × (info'.create_timestamp ≡ info.create_timestamp)
      × (info'.source_id ≡ info.source_id)
      × (info'.transaction_id ≡ info.transaction_id)
unfolding check_timeout
check_timeout_exact timeout last now info c h = ground arith
