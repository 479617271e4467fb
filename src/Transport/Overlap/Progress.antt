-- ===== src/Transport/Overlap/Progress.antt =====
-- No thread waits for ever for the access of another: every handler can be brought to its end.
use modbus_gateway.Base.{
  ℕ, ◌≡◌, refl, sym, subst, Option, none, some, List, [], ◌++◌, ◌==◌, Bool-cases, Option-cases, inl,
  inr,
}
use modbus_gateway.Synchronized.{get_access, write, release, make_synchronized}
use modbus_gateway.Message.{ModbusMessage, ModbusMessageInfo}
use modbus_gateway.Transport.{Effect}
use modbus_gateway.Transport.Overlap.{
  Task, request, storing, stored, routing, response, checking, matched, answering, sending,
  refusing, finished, Threads, enter, check, move, run,
}
use modbus_gateway.Transport.Overlap.Held.{IsInside, IsHeld, IsFree, IsFinished, run-IsHeld}
use modbus_gateway.Transport.Overlap.Eventually.{
  Eventually, now, later, then_later, goes, tested, run-append,
}

module _ {Buf : Type 0} (id : ℕ) (routed answered : ModbusMessage Buf → List (Effect Buf)) where
  refusing_leaves :
      (i : ℕ) (s : Threads Buf) → s.tasks i ≡ refusing → Eventually id routed answered IsFree s
  refusing_leaves i s e =
      later id routed answered IsFree i s refusing e (now id routed answered IsFree _ refl)

  answering_leaves :
      (i : ℕ) (m : ModbusMessage Buf) (s : Threads Buf)
      → s.tasks i ≡ answering m
      → Eventually id routed answered IsFree s
  answering_leaves i m s e =
      later id routed answered IsFree i s (answering m) e (now id routed answered IsFree _ refl)

  stored_leaves :
      (i : ℕ) (m : ModbusMessage Buf) (s : Threads Buf)
      → s.tasks i ≡ stored m
      → Eventually id routed answered IsFree s
  stored_leaves i m s e =
      later id routed answered IsFree i s (stored m) e (now id routed answered IsFree _ refl)

  matched_leaves :
      (i : ℕ) (m : ModbusMessage Buf) (s : Threads Buf)
      → s.tasks i ≡ matched m
      → Eventually id routed answered IsFree s
  matched_leaves i m s e =
      goes id routed answered IsFree i s (matched m) (answering m) (write none s.request_info) e
        refl (answering_leaves i m)

  -- Who is in the access can leave it.
  leave :
      (i : ℕ) (t : Task Buf) (s : Threads Buf)
      → s.tasks i ≡ t
      → IsInside t
      → Eventually id routed answered IsFree s
  leave i (storing m) s e h =
      goes id routed answered IsFree i s (storing m) (stored m) (write (some m.info) s.request_info)
        e refl (stored_leaves i m)
  leave i (stored m) s e h = stored_leaves i m s e
  leave i (checking m) s e h =
      goes id routed answered IsFree i s (checking m) (check m s.request_info.value) s.request_info
        e refl
        (tested id routed answered IsFree i m (refusing_leaves i) (matched_leaves i m)
          s.request_info.value)
  leave i (matched m) s e h = matched_leaves i m s e
  leave i (answering m) s e h = answering_leaves i m s e
  leave i refusing s e h = refusing_leaves i s e
  leave i (request m) s e h = absurd h
  leave i (response m) s e h = absurd h
  leave i (routing m) s e h = absurd h
  leave i (sending m) s e h = absurd h
  leave i (finished es) s e h = absurd h

  abbrev HasEnded : ℕ → Threads Buf → Type 0
  HasEnded i s = IsFinished (s.tasks i)

  ended :
      (i : ℕ) (s : Threads Buf) (es : List (Effect Buf))
      → s.tasks i ≡ finished es
      → Eventually id routed answered (HasEnded i) s
  ended i s es e = now id routed answered (HasEnded i) s (subst IsFinished (sym e) tt)

  sending_ends :
      (i : ℕ) (m : ModbusMessage Buf) (s : Threads Buf)
      → s.tasks i ≡ sending m
      → Eventually id routed answered (HasEnded i) s
  sending_ends i m s e =
      goes id routed answered (HasEnded i) i s (sending m) (finished (answered m)) s.request_info e
        refl (λ s' q. ended i s' (answered m) q)

  routing_ends :
      (i : ℕ) (m : ModbusMessage Buf) (s : Threads Buf)
      → s.tasks i ≡ routing m
      → Eventually id routed answered (HasEnded i) s
  routing_ends i m s e =
      goes id routed answered (HasEnded i) i s (routing m) (finished (routed m)) s.request_info e
        refl (λ s' q. ended i s' (routed m) q)

  refusing_ends :
      (i : ℕ) (s : Threads Buf)
      → s.tasks i ≡ refusing
      → Eventually id routed answered (HasEnded i) s
  refusing_ends i s e =
      goes id routed answered (HasEnded i) i s refusing (finished []) (release s.request_info) e
        refl (λ s' q. ended i s' [] q)

  answering_ends :
      (i : ℕ) (m : ModbusMessage Buf) (s : Threads Buf)
      → s.tasks i ≡ answering m
      → Eventually id routed answered (HasEnded i) s
  answering_ends i m s e =
      goes id routed answered (HasEnded i) i s (answering m) (sending m) (release s.request_info) e
        refl (sending_ends i m)

  matched_ends :
      (i : ℕ) (m : ModbusMessage Buf) (s : Threads Buf)
      → s.tasks i ≡ matched m
      → Eventually id routed answered (HasEnded i) s
  matched_ends i m s e =
      goes id routed answered (HasEnded i) i s (matched m) (answering m) (write none s.request_info)
        e refl (answering_ends i m)

  checking_ends :
      (i : ℕ) (m : ModbusMessage Buf) (s : Threads Buf)
      → s.tasks i ≡ checking m
      → Eventually id routed answered (HasEnded i) s
  checking_ends i m s e =
      goes id routed answered (HasEnded i) i s (checking m) (check m s.request_info.value)
        s.request_info e refl
        (tested id routed answered (HasEnded i) i m (refusing_ends i) (matched_ends i m)
          s.request_info.value)

  stored_ends :
      (i : ℕ) (m : ModbusMessage Buf) (s : Threads Buf)
      → s.tasks i ≡ stored m
      → Eventually id routed answered (HasEnded i) s
  stored_ends i m s e =
      goes id routed answered (HasEnded i) i s (stored m) (routing m) (release s.request_info) e
        refl (routing_ends i m)

  storing_ends :
      (i : ℕ) (m : ModbusMessage Buf) (s : Threads Buf)
      → s.tasks i ≡ storing m
      → Eventually id routed answered (HasEnded i) s
  storing_ends i m s e =
      goes id routed answered (HasEnded i) i s (storing m) (stored m)
        (write (some m.info) s.request_info) e refl (stored_ends i m)

  -- A thread comes to its end when nobody is in the access.
  end_free :
      (i : ℕ) (t : Task Buf) (s : Threads Buf)
      → s.tasks i ≡ t
      → IsFree s
      → Eventually id routed answered (HasEnded i) s
  end_free i (request m) s e free =
      goes id routed answered (HasEnded i) i s (request m) (storing m)
        (record s.request_info { holder = some i }) e (rw (move, enter, get_access, free) refl)
        (storing_ends i m)
  end_free i (storing m) s e free = storing_ends i m s e
  end_free i (stored m) s e free = stored_ends i m s e
  end_free i (routing m) s e free = routing_ends i m s e
  end_free i (response m) s e free = elim (Bool-cases (id == m.info.source_id)) [
    | inl k ↦
        goes id routed answered (HasEnded i) i s (response m) (checking m)
          (record s.request_info { holder = some i }) e (rw (move, enter, get_access, k, free) refl)
          (checking_ends i m)
    | inr k ↦
        goes id routed answered (HasEnded i) i s (response m) (finished []) s.request_info e
          (rw (move, k) refl) (λ s' q. ended i s' [] q)
  ]
  end_free i (checking m) s e free = checking_ends i m s e
  end_free i (matched m) s e free = matched_ends i m s e
  end_free i (answering m) s e free = answering_ends i m s e
  end_free i (sending m) s e free = sending_ends i m s e
  end_free i refusing s e free = refusing_ends i s e
  end_free i (finished es) s e free = ended i s es e

  end_held : (i : ℕ) (s : Threads Buf) → IsHeld s → Eventually id routed answered (HasEnded i) s
  end_held i s v = elim (Option-cases s.request_info.holder) [
    | inl e ↦ end_free i (s.tasks i) s refl e
    | inr (j, e) ↦
        then_later id routed answered IsFree (HasEnded i) s (leave j (s.tasks j) s refl (v j e))
          (λ s' free. end_free i (s'.tasks i) s' refl free)
  ]

  -- Whatever steps the threads that run handlers of a connection or an RTU slave have taken, from any
  -- places at which no thread has the access to its last request: for each thread there is a way to go
  -- on in which its handler comes to its end.
  pub run_ends :
      (info : Option ModbusMessageInfo) (tasks : ℕ → Task Buf) (schedule : List ℕ) (i : ℕ)
      → (rest : List ℕ) × IsFinished (
          (run id routed answered
              (schedule ++ rest)
              (record { request_info = make_synchronized info; tasks = tasks })).tasks
            i)
  run_ends info tasks schedule i =
      let s : Threads Buf = record { request_info = make_synchronized info; tasks = tasks } in
      let (rest, h) =
        end_held i (run id routed answered schedule s)
          (run-IsHeld id routed answered schedule s (λ j e. cc)) in
      (rest, subst (HasEnded i) (sym (run-append id routed answered schedule rest s)) h)
