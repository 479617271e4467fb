-- ===== src/Transport/Overlap/Order.antt =====
-- Handlers on several threads have the effects of handlers one after the other.
use modbus_gateway.Base.{
  ℕ, ◌≡◌, refl, sym, ap, ◌∙◌, true, Option, none, some, List, [], ◌∷◌, ◌==◌, Bool-cases,
  Option-cases, ◌⊎◌, inl, inr,
}
use modbus_gateway.Synchronized.{make_synchronized, get_access}
use modbus_gateway.Message.{ModbusMessage, ModbusMessageInfo}
use modbus_gateway.Transport.{Effect}
use modbus_gateway.Transport.Overlap.{
  Task, request, storing, stored, routing, response, checking, matched, answering, sending,
  refusing, finished, Threads, proceed, enter, check, move, run,
}
use modbus_gateway.Transport.Overlap.Turns.{
  Shared, IsBeginning, Agrees, InTurns, Turns, Whole, take_turn, take_turns, IsWhole,
}
use modbus_gateway.Transport.Overlap.Places.{IsAt, Follows, quiet-Follows, turn-Follows}

module _ {Buf : Type 0} (id : ℕ) (routed answered : ModbusMessage Buf → List (Effect Buf))
    (whole : Whole Buf) (laws : IsWhole id routed answered whole) where
  -- A thread that may enter the access.
  enter-Follows :
      (a : Turns Buf) (s : Threads Buf) (i : ℕ) (t : Task Buf)
      → Follows id routed answered a s
      → ((x : Shared) → x.holder ≡ some i → IsAt id routed answered i x t (a.tasks i))
      → Follows id routed answered a (enter i t s)
  enter-Follows a s i t v h = elim (Option-cases s.request_info.holder) [
    | inl e ↦
        rw (enter, get_access, e)
          (quiet-Follows id routed answered a s i t (record s.request_info { holder = some i }) v
            (inl (inl e)) refl (h _ refl))
    | inr (j, e) ↦ rw (enter, get_access, e) v
  ]

  alone_lem :
      (a : Turns Buf) (s : Threads Buf) (i : ℕ) (u : Task Buf) (o : Option ModbusMessageInfo)
      (out : Option ModbusMessageInfo × List (Effect Buf))
      → Follows id routed answered a s
      → a.tasks i ≡ u
      → s.request_info.value ≡ o
      → whole u o ≡ out
      → whole (a.tasks i) a.request_info ≡ out
  alone_lem a s i u o out v e q h =
      ap (λ t. whole t a.request_info) e ∙ ap (whole u) (v.request_info ∙ q) ∙ h

  -- A handler that refuses at its test takes its turn there.
  refuse-Follows :
      (a : Turns Buf) (s : Threads Buf) (i : ℕ) (m : ModbusMessage Buf)
      (o : Option ModbusMessageInfo)
      → Follows id routed answered a s
      → s.request_info.value ≡ o
      → a.tasks i ≡ response m
      → s.request_info.holder ≡ some i
      → whole (response m) o ≡ (o, [])
      → Follows id routed answered (take_turn whole i a) (proceed i refusing s.request_info s)
  refuse-Follows a s i m o v q e h w =
      turn-Follows id routed answered whole a s i refusing s.request_info [] v (inr refl)
        (alone_lem a s i (response m) o _ v e q (w ∙ ap (λ x. (x, [])) (sym q))) (refl, h)

  -- The places that a step goes to take the turn or leave it.
  abbrev Steps : Turns Buf → Threads Buf → ℕ → Threads Buf → Type 0
  Steps a s i s' =
      Follows id routed answered a s' ⊎ Follows id routed answered (take_turn whole i a) s'

  check-Steps :
      (a : Turns Buf) (s : Threads Buf) (i : ℕ) (m : ModbusMessage Buf)
      (o : Option ModbusMessageInfo)
      → Follows id routed answered a s
      → s.request_info.value ≡ o
      → a.tasks i ≡ response m
      → s.request_info.holder ≡ some i
      → (id == m.info.source_id) ≡ true
      → Steps a s i (proceed i (check m o) s.request_info s)
  check-Steps a s i m none v q e h k =
      inr (refuse-Follows a s i m none v q e h (laws.of_unasked m k))
  check-Steps a s i m (some last) v q e h k =
      elim (Bool-cases (last.transaction_id == m.info.transaction_id)) [
        | inl r ↦
            rw (check, r)
              (inl (
                quiet-Follows id routed answered a s i (matched m) s.request_info v (inr refl) refl
                  (e, h, k, last, q, r)))
        | inr r ↦
            rw (check, r)
              (inr (refuse-Follows a s i m (some last) v q e h (laws.of_other m last k r)))
      ]

  move-Steps :
      (a : Turns Buf) (s : Threads Buf) (i : ℕ) (t : Task Buf)
      → Follows id routed answered a s
      → IsAt id routed answered i s.request_info t (a.tasks i)
      → Steps a s i (move id routed answered i t s)
  move-Steps a s i (request m) v h = inl (enter-Follows a s i (storing m) v (λ x e. (h, e)))
  move-Steps a s i (storing m) v (e, h) = inr (
      turn-Follows id routed answered whole a s i (stored m) _ (routed m) v (inl (inr h))
        (alone_lem a s i (request m) s.request_info.value _ v e refl
          (laws.of_request m s.request_info.value))
        (refl, h))
  move-Steps a s i (stored m) v (e, h) =
      inl (quiet-Follows id routed answered a s i (routing m) _ v (inl (inr h)) refl e)
  move-Steps a s i (routing m) v e = inl (
      quiet-Follows id routed answered a s i (finished (routed m)) s.request_info v (inr refl) refl
        e)
  move-Steps a s i (response m) v e = elim (Bool-cases (id == m.info.source_id)) [
    | inl k ↦ rw (move, k) (inl (enter-Follows a s i (checking m) v (λ x h. (e, h, k))))
    | inr k ↦
        rw (move, k)
          (inr (
            turn-Follows id routed answered whole a s i (finished []) s.request_info [] v (inr refl)
              (alone_lem a s i (response m) s.request_info.value _ v e refl
                (laws.of_foreign m s.request_info.value k))
              refl))
  ]
  move-Steps a s i (checking m) v (e, h, k) = check-Steps a s i m s.request_info.value v refl e h k
  move-Steps a s i (matched m) v (e, h, k, last, q, r) = inr (
      turn-Follows id routed answered whole a s i (answering m) _ (answered m) v (inl (inr h))
        (alone_lem a s i (response m) (some last) _ v e q (laws.of_matching m last k r)) (refl, h))
  move-Steps a s i (answering m) v (e, h) =
      inl (quiet-Follows id routed answered a s i (sending m) _ v (inl (inr h)) refl e)
  move-Steps a s i (sending m) v e = inl (
      quiet-Follows id routed answered a s i (finished (answered m)) s.request_info v (inr refl)
        refl e)
  move-Steps a s i refusing v (e, h) =
      inl (quiet-Follows id routed answered a s i (finished []) _ v (inl (inr h)) refl e)
  move-Steps a s i (finished es) v e = inl v

  -- The threads took turns in this order, the latest first.
  abbrev IsOrder : Turns Buf → Threads Buf → List ℕ → Type 0
  IsOrder a s order = Follows id routed answered (take_turns whole order a) s

  run-ordered :
      (schedule : List ℕ) (order : List ℕ) (a : Turns Buf) (s : Threads Buf)
      → IsOrder a s order
      → (order : List ℕ) × IsOrder a (run id routed answered schedule s) order
  unfolding run
  run-ordered [] order a s v = (order, v)
  run-ordered (i ∷ is) order a s v =
      elim (move-Steps (take_turns whole order a) s i (s.tasks i) v (v.tasks i)) [
        | inl w ↦ run-ordered is order a _ w
        | inr w ↦ run-ordered is (i ∷ order) a _ w
      ]

  IsAt-Agrees : (i : ℕ) (x : Shared) (t u : Task Buf) → IsAt id routed answered i x t u → Agrees t u
  IsAt-Agrees i x (finished es) u h = h
  IsAt-Agrees i x (request m) u h = h
  IsAt-Agrees i x (response m) u h = h
  IsAt-Agrees i x (storing m) u h = tt
  IsAt-Agrees i x (stored m) u h = tt
  IsAt-Agrees i x (routing m) u h = tt
  IsAt-Agrees i x (checking m) u h = tt
  IsAt-Agrees i x (matched m) u h = tt
  IsAt-Agrees i x (answering m) u h = tt
  IsAt-Agrees i x (sending m) u h = tt
  IsAt-Agrees i x refusing u h = tt

  IsBeginning-IsAt :
      (i : ℕ) (x : Shared) (t : Task Buf) → IsBeginning t → IsAt id routed answered i x t t
  IsBeginning-IsAt i x (request m) h = refl
  IsBeginning-IsAt i x (response m) h = refl
  IsBeginning-IsAt i x (finished es) h = refl
  IsBeginning-IsAt i x (storing m) h = absurd h
  IsBeginning-IsAt i x (stored m) h = absurd h
  IsBeginning-IsAt i x (routing m) h = absurd h
  IsBeginning-IsAt i x (checking m) h = absurd h
  IsBeginning-IsAt i x (matched m) h = absurd h
  IsBeginning-IsAt i x (answering m) h = absurd h
  IsBeginning-IsAt i x (sending m) h = absurd h
  IsBeginning-IsAt i x refusing h = absurd h

  -- However the threads take turns step by step, there is an order of whole handlers.
  pub run-InTurns :
      (schedule : List ℕ) (info : Option ModbusMessageInfo) (tasks : ℕ → Task Buf)
      → ((i : ℕ) → IsBeginning (tasks i))
      → InTurns
          (λ order. take_turns whole order (record { request_info = info; tasks = tasks }))
          (run id routed answered schedule
            (record { request_info = make_synchronized info; tasks = tasks }))
  run-InTurns schedule info tasks h =
      let (order, v) =
        run-ordered schedule [] (record { request_info = info; tasks = tasks })
          (record { request_info = make_synchronized info; tasks = tasks })
          (record { request_info = refl; tasks = λ i. IsBeginning-IsAt i _ (tasks i) (h i) }) in
      (order, v.request_info, λ i. IsAt-Agrees i _ _ _ (v.tasks i))
