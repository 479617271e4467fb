-- ===== src/Transport/Traffic.antt =====
-- What the gateway's actors may send one another, and put on the wire.
use modbus_gateway.Base.{
  ℕ, suc, ◌≡◌, Bool, true, false, none, some, List, [], ◌∷◌, All, Bool-cases, inl, inr, arith,
}
use modbus_gateway.Modbus.{Modbus}
use modbus_gateway.Router.{Router, route}
use modbus_gateway.Message.{
  ModbusMessage, ModbusMessageInfo, Message, modbus_message, client_disconnect, check_timeout,
  nanoseconds,
}
use modbus_gateway.Transport.{
  Effect, start_send, deliver, undefined_behaviour, delivered, drop_expired,
}

module _ {Buf : Type 0} (modbus : Modbus Buf) (router : Router) (is_master : ℕ → Bool)
    (Past : Type 0) where
  -- A request for the master `i`: its frame is routed there, and the answer goes elsewhere.
  abbrev pub IsRequestFor : ℕ → ModbusMessage Buf → Type 0
  IsRequestFor i m =
      (b : Buf) × (m.buffer ≡ some b)
      × (route router (modbus.get_unit_id b) ≡ some i)
      × (is_master m.info.source_id ≡ false)

  -- Masters get requests that are routed to them, and only clients are reported as disconnected.
  abbrev pub IsAddressed : ℕ × Message Buf → Type 0
  IsAddressed (i, modbus_message m) = is_master i ≡ true → IsRequestFor i m
  IsAddressed (i, client_disconnect j) = is_master j ≡ false

  -- A master sends only frames that are routed to it, and never reads a null buffer; where an actor's
  -- behaviour is undefined, a request was past the table.
  abbrev pub IsAllowed : ℕ → Effect Buf → Type 0
  IsAllowed i (start_send b size) =
      is_master i ≡ true → route router (modbus.get_unit_id b) ≡ some i
  IsAllowed i (deliver j m) = IsAddressed (j, m)
  IsAllowed i undefined_behaviour = (is_master i ≡ false) × Past
  IsAllowed i _ = Unit

  -- A frame that is received: if its unit id is not in the table, that is the request past the table.
  abbrev pub IsInTable : Buf → ℕ → Type 0
  IsInTable b size = route router (modbus.get_unit_id (modbus.set_adu_size size b).1) ≡ none → Past

  pub IsAllowed-delivered :
      (i : ℕ) (es : List (Effect Buf)) → All (IsAllowed i) es → All IsAddressed (delivered es)
  IsAllowed-delivered i [] h = tt
  IsAllowed-delivered i (deliver j m ∷ es) h = (h.0, IsAllowed-delivered i es h.1)
  IsAllowed-delivered i (_ ∷ es) h = IsAllowed-delivered i es h.1

module _ {Buf : Type 0} (modbus : Modbus Buf) (router : Router) (is_master : ℕ → Bool)
    (Past : Type 0) (i : ℕ) where
  abbrev pub AllRequests : List (ModbusMessage Buf) → Type 0
  AllRequests = All (IsRequestFor modbus router is_master Past i)

  abbrev pub AllAllowed : List (Effect Buf) → Type 0
  AllAllowed = All (IsAllowed modbus router is_master Past i)

  check_timeout-source :
      (timeout now : ℕ) (info : ModbusMessageInfo)
      → (check_timeout timeout now info).1.source_id ≡ info.source_id
  unfolding check_timeout
  check_timeout-source timeout now info = ground arith

  pub drop_expired-AllRequests :
      (timeout : ℕ) (clock : ℕ → ℕ) (ms : List (ModbusMessage Buf))
      → AllRequests ms
      → AllRequests (drop_expired timeout clock ms)
  unfolding drop_expired
  drop_expired-AllRequests timeout clock [] h = tt
  drop_expired-AllRequests timeout clock (m ∷ ms) ((b, e, r, s), h) =
      elim (Bool-cases (check_timeout (nanoseconds timeout) (clock 0) m.info).0) [
        | inl x ↦ rw x (drop_expired-AllRequests timeout (λ k. clock (suc k)) ms h)
        | inr x ↦
            rw x ((b, e, r, rw (check_timeout-source (nanoseconds timeout) (clock 0) m.info) s), h)
      ]
