-- ===== src/Transport/Overlap/Held.antt =====
-- A thread that has the access is in it.
use modbus_gateway.Base.{
  ℕ, ◌≡◌, refl, sym, subst, false, Option, none, some, List, [], ◌∷◌, ◌==◌, ==_iff, Bool-cases,
  Option-cases, inl, inr,
}
use modbus_gateway.Synchronized.{get_access, write}
use modbus_gateway.Message.{ModbusMessage, ModbusMessageInfo}
use modbus_gateway.Transport.{Effect}
use modbus_gateway.Transport.Overlap.{
  Task, request, storing, stored, routing, response, checking, matched, answering, sending,
  refusing, finished, Threads, proceed, enter, check, move, run,
}
use modbus_gateway.Transport.Overlap.Turns.{Shared}

module _ {Buf : Type 0} where
  -- The handler is in its access.
  abbrev pub IsInside : Task Buf → Type 0
  IsInside (request m) = ⊥
  IsInside (response m) = ⊥
  IsInside (routing m) = ⊥
  IsInside (sending m) = ⊥
  IsInside (finished es) = ⊥
  IsInside _ = Unit

  -- A thread that has the access is in it.
  abbrev pub IsHeld : Threads Buf → Type 0
  IsHeld s = (j : ℕ) → s.request_info.holder ≡ some j → IsInside (s.tasks j)

  abbrev pub IsFree : Threads Buf → Type 0
  IsFree s = s.request_info.holder ≡ none

  abbrev pub IsFinished : Task Buf → Type 0
  IsFinished (finished es) = Unit
  IsFinished _ = ⊥

  proceed_inside :
      (i : ℕ) (t : Task Buf) (y : Shared) (s : Threads Buf)
      → IsHeld s
      → IsInside t
      → ((j : ℕ) → (i == j) ≡ false → y.holder ≡ some j → s.request_info.holder ≡ some j)
      → IsHeld (proceed i t y s)
  proceed_inside i t y s v h k j e = elim (Bool-cases (i == j)) [
    | inl q ↦ rw q h
    | inr q ↦ rw q (v j (k j q e))
  ]

  proceed_outside :
      (i : ℕ) (t : Task Buf) (s : Threads Buf)
      → IsHeld s
      → (IsInside (s.tasks i) → ⊥)
      → IsHeld (proceed i t s.request_info s)
  proceed_outside i t s v h j e = elim (Bool-cases (i == j)) [
    | inl q ↦
        absurd (h (v i (subst (λ k. s.request_info.holder ≡ some k) (sym ((==_iff i j).0 q)) e)))
    | inr q ↦ rw q (v j e)
  ]

  enter-IsHeld :
      (i : ℕ) (t : Task Buf) (s : Threads Buf) → IsHeld s → IsInside t → IsHeld (enter i t s)
  enter-IsHeld i t s v h = elim (Option-cases s.request_info.holder) [
    | inl e ↦
        rw (enter, get_access, e)
          (proceed_inside i t (record s.request_info { holder = some i }) s v h
            (λ j q k. absurd (other j q k)))
    | inr (j, e) ↦ rw (enter, get_access, e) v
  ]
    where
      other : (j : ℕ) → (i == j) ≡ false → some i ≡ some j → ⊥
      other j q k = cc (q, (==_iff i j).1 (same j k))
        where
          same : (j : ℕ) → some i ≡ some j → i ≡ j
          same j k = cc

  check-IsInside : (m : ModbusMessage Buf) (o : Option ModbusMessageInfo) → IsInside (check m o)
  check-IsInside m none = tt
  check-IsInside m (some last) = elim (Bool-cases (last.transaction_id == m.info.transaction_id)) [
    | inl e ↦ rw (check, e) tt
    | inr e ↦ rw (check, e) tt
  ]

module _ {Buf : Type 0} (id : ℕ) (routed answered : ModbusMessage Buf → List (Effect Buf)) where
  move-IsHeld :
      (i : ℕ) (t : Task Buf) (s : Threads Buf)
      → IsHeld s
      → s.tasks i ≡ t
      → IsHeld (move id routed answered i t s)
  move-IsHeld i (request m) s v e = enter-IsHeld i (storing m) s v tt
  move-IsHeld i (storing m) s v e =
      proceed_inside i (stored m) (write (some m.info) s.request_info) s v tt (λ j q k. k)
  move-IsHeld i (stored m) s v e = λ j k. cc
  move-IsHeld i (routing m) s v e =
      proceed_outside i (finished (routed m)) s v (λ h. subst IsInside e h)
  move-IsHeld i (response m) s v e = elim (Bool-cases (id == m.info.source_id)) [
    | inl k ↦ rw (move, k) (enter-IsHeld i (checking m) s v tt)
    | inr k ↦ rw (move, k) (proceed_outside i (finished []) s v (λ h. subst IsInside e h))
  ]
  move-IsHeld i (checking m) s v e =
      proceed_inside i (check m s.request_info.value) s.request_info s v
        (check-IsInside m s.request_info.value) (λ j q k. k)
  move-IsHeld i (matched m) s v e =
      proceed_inside i (answering m) (write none s.request_info) s v tt (λ j q k. k)
  move-IsHeld i (answering m) s v e = λ j k. cc
  move-IsHeld i (sending m) s v e =
      proceed_outside i (finished (answered m)) s v (λ h. subst IsInside e h)
  move-IsHeld i refusing s v e = λ j k. cc
  move-IsHeld i (finished es) s v e = v

  pub run-IsHeld :
      (schedule : List ℕ) (s : Threads Buf) → IsHeld s → IsHeld (run id routed answered schedule s)
  unfolding run
  run-IsHeld [] s v = v
  run-IsHeld (i ∷ is) s v = run-IsHeld is _ (move-IsHeld i (s.tasks i) s v refl)
