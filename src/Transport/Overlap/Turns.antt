-- ===== src/Transport/Overlap/Turns.antt =====
-- Handlers that run one at a time, to which those on several threads are compared.
use modbus_gateway.Base.{ℕ, ◌≡◌, true, false, Option, none, some, List, [], ◌∷◌, ◌==◌}
use modbus_gateway.Synchronized.{Synchronized}
use modbus_gateway.Message.{ModbusMessage, ModbusMessageInfo}
use modbus_gateway.Transport.{Effect}
use modbus_gateway.Transport.Overlap.{Task, request, response, finished, Threads, assign}

abbrev pub Shared : Type 0
Shared = Synchronized (Option ModbusMessageInfo)

-- Handlers that run one at a time.
pub record Turns (Buf : Type 0) : Type 0 where
  pub request_info : Option ModbusMessageInfo
  pub tasks : ℕ → Task Buf

-- A thread's handler that has not begun, and not ended.
abbrev pub IsBeginning : {Buf : Type 0} → Task Buf → Type 0
IsBeginning (request m) = Unit
IsBeginning (response m) = Unit
IsBeginning _ = ⊥

-- A handler that has ended did the same in the turns, and one that has not begun has had no turn.
abbrev pub Agrees : {Buf : Type 0} → Task Buf → Task Buf → Type 0
Agrees (finished es) u = u ≡ finished es
Agrees (request m) u = u ≡ request m
Agrees (response m) u = u ≡ response m
Agrees _ u = Unit

-- There is an order of turns that leaves the same information and agrees with every thread.
abbrev pub InTurns : {Buf : Type 0} → (List ℕ → Turns Buf) → Threads Buf → Type 0
InTurns turns s =
    (order : List ℕ) × ((turns order).request_info ≡ s.request_info.value)
    × ((i : ℕ) → Agrees (s.tasks i) ((turns order).tasks i))

-- A handler that runs from its beginning to its end, alone.
abbrev pub Whole : Type 0 → Type 0
Whole Buf = Task Buf → Option ModbusMessageInfo → Option ModbusMessageInfo × List (Effect Buf)

module _ {Buf : Type 0} (whole : Whole Buf) where
  abbrev pub take_turn : ℕ → Turns Buf → Turns Buf
  take_turn i a =
      let (info, es) = whole (a.tasks i) a.request_info in
      record { request_info = info; tasks = assign a.tasks i (finished es) }

  -- The threads of the list run one at a time, its last one first.
  abbrev pub take_turns : List ℕ → Turns Buf → Turns Buf
  take_turns [] a = a
  take_turns (i ∷ is) a = take_turn i (take_turns is a)

module _ {Buf : Type 0} (id : ℕ) (routed answered : ModbusMessage Buf → List (Effect Buf)) where
  -- What the handlers do as a whole.
  pub record IsWhole (whole : Whole Buf) : Type 0 where
    pub of_request :
        (m : ModbusMessage Buf) (o : Option ModbusMessageInfo)
        → whole (request m) o ≡ (some m.info, routed m)
    pub of_foreign :
        (m : ModbusMessage Buf) (o : Option ModbusMessageInfo)
        → (id == m.info.source_id) ≡ false
        → whole (response m) o ≡ (o, [])
    pub of_unasked :
        (m : ModbusMessage Buf)
        → (id == m.info.source_id) ≡ true
        → whole (response m) none ≡ (none, [])
    pub of_other :
        (m : ModbusMessage Buf) (last : ModbusMessageInfo)
        → (id == m.info.source_id) ≡ true
        → (last.transaction_id == m.info.transaction_id) ≡ false
        → whole (response m) (some last) ≡ (some last, [])
    pub of_matching :
        (m : ModbusMessage Buf) (last : ModbusMessageInfo)
        → (id == m.info.source_id) ≡ true
        → (last.transaction_id == m.info.transaction_id) ≡ true
        → whole (response m) (some last) ≡ (none, answered m)
