-- ===== src/Transport/Overlap.antt =====
-- The handlers of a slave on several threads at once: src/transport/modbus_tcp_connection.cpp and
-- src/transport/modbus_rtu_slave.cpp share `syncRequestInfo_` between the handler of a read and
-- Receive. A handler is cut at the ends of its `access`, and at the test and the reset within.
pub mod Turns
pub mod Places
pub mod Order
pub mod Held
pub mod Eventually
pub mod Progress
use modbus_gateway.Base.{
  ℕ, Bool, true, false, Option, none, some, List, [], ◌∷◌, ◌==◌, if◌then◌else◌,
}
use modbus_gateway.Synchronized.{Synchronized, get_access, write, release}
use modbus_gateway.Message.{ModbusMessage, ModbusMessageInfo}
use modbus_gateway.Transport.{Effect}

-- Where the handler of a thread is.
pub data Task (Buf : Type 0) : Type 0 where
  -- the handler of a read with a valid request: before its access, in it before and after the
  -- write, and behind it
  request storing stored routing : ModbusMessage Buf → Task Buf
  -- Receive: before the access of MakeResponse, in it before the test, before and after the reset,
  -- and behind it
  response checking matched answering sending : ModbusMessage Buf → Task Buf
  -- in the access at `return nullptr`
  refusing : Task Buf
  -- with the effects that the handler had
  finished : List (Effect Buf) → Task Buf

pub record Threads (Buf : Type 0) : Type 0 where
  pub request_info : Synchronized (Option ModbusMessageInfo)
  pub tasks : ℕ → Task Buf

abbrev pub assign {ℓ} : {A : Type ℓ} → (ℕ → A) → ℕ → A → ℕ → A
assign f i a j = if i == j then a else f j

module _ {Buf : Type 0} where
  abbrev pub proceed :
      ℕ → Task Buf → Synchronized (Option ModbusMessageInfo) → Threads Buf → Threads Buf
  proceed i t x s = record { request_info = x; tasks = assign s.tasks i t }

  -- `auto access = syncRequestInfo_.GetAccess()`
  abbrev pub enter : ℕ → Task Buf → Threads Buf → Threads Buf
  enter i t s = elim (get_access i s.request_info) [ none ↦ s | some x ↦ proceed i t x s ]

  -- The tests of MakeResponse on the last request.
  abbrev pub check : ModbusMessage Buf → Option ModbusMessageInfo → Task Buf
  check m none = refusing
  check m (some last) = if last.transaction_id == m.info.transaction_id then matched m else refusing

-- For an actor with this id, and what its handlers do behind their accesses.
module _ {Buf : Type 0} (id : ℕ) (routed answered : ModbusMessage Buf → List (Effect Buf)) where
  abbrev pub move : ℕ → Task Buf → Threads Buf → Threads Buf
  move i (request m) s = enter i (storing m) s
  move i (storing m) s = proceed i (stored m) (write (some m.info) s.request_info) s
  move i (stored m) s = proceed i (routing m) (release s.request_info) s
  move i (routing m) s = proceed i (finished (routed m)) s.request_info s
  move i (response m) s =
      if id == m.info.source_id
      then enter i (checking m) s
      else proceed i (finished []) s.request_info s
  move i (checking m) s = proceed i (check m s.request_info.value) s.request_info s
  move i (matched m) s = proceed i (answering m) (write none s.request_info) s
  move i (answering m) s = proceed i (sending m) (release s.request_info) s
  move i (sending m) s = proceed i (finished (answered m)) s.request_info s
  move i refusing s = proceed i (finished []) (release s.request_info) s
  move i (finished es) s = s

  -- One step of a thread.
  abbrev pub step : ℕ → Threads Buf → Threads Buf
  step i s = move i (s.tasks i) s

  -- The threads take turns in any way.
  unfoldable pub run : List ℕ → Threads Buf → Threads Buf
  run [] s = s
  run (i ∷ is) s = run is (step i s)
