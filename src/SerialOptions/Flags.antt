-- ===== src/SerialOptions/Flags.antt =====
-- What SetOptions makes of the RS-485 flags.
use modbus_gateway.Base.{
  ℕ, ◌≡◌, ◌≢◌, Bool, true, false, ◌==◌, Option, none, some, arith, if◌then◌else◌,
}
use modbus_gateway.Config.Types.{Rs485}
use modbus_gateway.SerialOptions.{Rs485Bits, SerialRs485, set_bit, set_option, update_rs485}

-- The bits have different numbers, as linux/serial.h says.
pub record AreDistinct (bits : Rs485Bits) : Type 0 where
  pub enabled-rts_on_send : bits.enabled ≢ bits.rts_on_send
  pub enabled-rts_after_send : bits.enabled ≢ bits.rts_after_send
  pub enabled-rx_during_tx : bits.enabled ≢ bits.rx_during_tx
  pub enabled-terminate_bus : bits.enabled ≢ bits.terminate_bus
  pub rts_on_send-rts_after_send : bits.rts_on_send ≢ bits.rts_after_send
  pub rts_on_send-rx_during_tx : bits.rts_on_send ≢ bits.rx_during_tx
  pub rts_on_send-terminate_bus : bits.rts_on_send ≢ bits.terminate_bus
  pub rts_after_send-rx_during_tx : bits.rts_after_send ≢ bits.rx_during_tx
  pub rts_after_send-terminate_bus : bits.rts_after_send ≢ bits.terminate_bus
  pub rx_during_tx-terminate_bus : bits.rx_during_tx ≢ bits.terminate_bus

-- The value of the option, or what was there.
abbrev pub bit_or : Option Bool → Bool → Bool
bit_or none old = old
bit_or (some new) old = new

-- The option decides its own bit, and the other bits stay.
set_option_lem :
    (bit : ℕ) (option : Option Bool) (flags : ℕ → Bool) (i : ℕ)
    → set_option bit option flags i ≡ (if i == bit then bit_or option (flags i) else flags i)
unfolding set_option
set_option_lem bit none flags i = ground arith
set_option_lem bit (some true) flags i = ground arith
set_option_lem bit (some false) flags i = ground arith

-- The flags of the driver are as the options say, and otherwise as they were.
abbrev pub FlagsFollow : Rs485Bits → Rs485 → (ℕ → Bool) → (ℕ → Bool) → Type 0
FlagsFollow bits options old new =
    (new bits.enabled ≡ true)
    × (new bits.rts_on_send ≡ bit_or options.rts_on_send (old bits.rts_on_send))
    × (new bits.rts_after_send ≡ bit_or options.rts_after_send (old bits.rts_after_send))
    × (new bits.rx_during_tx ≡ bit_or options.rx_during_tx (old bits.rx_during_tx))
    × (new bits.terminate_bus ≡ bit_or options.terminate_bus (old bits.terminate_bus))
    × ((i : ℕ)
        → i ≢ bits.enabled
        → i ≢ bits.rts_on_send
        → i ≢ bits.rts_after_send
        → i ≢ bits.rx_during_tx
        → i ≢ bits.terminate_bus
        → new i ≡ old i)

-- One bit after another, for the bit with the number i.
abbrev bit_after : Rs485Bits → Rs485 → ℕ → Bool → Bool
bit_after bits o i old =
    if i == bits.terminate_bus
    then bit_or o.terminate_bus old
    else if i == bits.rx_during_tx
    then bit_or o.rx_during_tx old
    else if i == bits.rts_after_send
    then bit_or o.rts_after_send old
    else if i == bits.rts_on_send
    then bit_or o.rts_on_send old
    else if i == bits.enabled
    then true
    else old

module _ (bits : Rs485Bits) (d : AreDistinct bits) (options : Rs485) (old : SerialRs485) where
  update_rs485-bit :
      (i : ℕ) → (update_rs485 bits options old).flags i ≡ bit_after bits options i (old.flags i)
  unfolding update_rs485
  update_rs485-bit i =
      let f0 : ℕ → Bool = set_bit bits.enabled old.flags in
      let f1 : ℕ → Bool = set_option bits.rts_on_send options.rts_on_send f0 in
      let f2 : ℕ → Bool = set_option bits.rts_after_send options.rts_after_send f1 in
      let f3 : ℕ → Bool = set_option bits.rx_during_tx options.rx_during_tx f2 in
      ground (
        arith,
        set_option_lem bits.terminate_bus options.terminate_bus f3 i,
        set_option_lem bits.rx_during_tx options.rx_during_tx f2 i,
        set_option_lem bits.rts_after_send options.rts_after_send f1 i,
        set_option_lem bits.rts_on_send options.rts_on_send f0 i,
      )

  pub update_rs485-flags : FlagsFollow bits options old.flags (update_rs485 bits options old).flags
  update_rs485-flags = (
    ground (arith, update_rs485-bit bits.enabled),
    ground (arith, update_rs485-bit bits.rts_on_send),
    ground (arith, update_rs485-bit bits.rts_after_send),
    ground (arith, update_rs485-bit bits.rx_during_tx),
    ground (arith, update_rs485-bit bits.terminate_bus),
    λ i a b c e f. ground (arith, update_rs485-bit i),
  )
