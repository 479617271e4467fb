-- ===== src/Transport/Overlap/Eventually.antt =====
-- What threads that go on can come to.
use modbus_gateway.Base.{
  ℕ, ◌≡◌, refl, sym, subst, ◌∙◌, Option, none, some, List, [], ◌∷◌, ◌++◌, ◌==◌, ==_iff, Bool-cases,
  inl, inr,
}
use modbus_gateway.Message.{ModbusMessage, ModbusMessageInfo}
use modbus_gateway.Transport.{Effect}
use modbus_gateway.Transport.Overlap.{
  Task, matched, refusing, Threads, assign, proceed, check, move, step, run,
}
use modbus_gateway.Transport.Overlap.Turns.{Shared}

module _ {Buf : Type 0} (id : ℕ) (routed answered : ModbusMessage Buf → List (Effect Buf)) where
  -- The threads can go on so that this holds.
  abbrev pub Eventually : (Threads Buf → Type 0) → Threads Buf → Type 0
  Eventually P s = (rest : List ℕ) × P (run id routed answered rest s)

  pub now : (P : Threads Buf → Type 0) (s : Threads Buf) → P s → Eventually P s
  unfolding run
  now P s p = ([], p)

  pub later :
      (P : Threads Buf → Type 0) (i : ℕ) (s : Threads Buf) (t : Task Buf)
      → s.tasks i ≡ t
      → Eventually P (move id routed answered i t s)
      → Eventually P s
  unfolding run
  later P i s t e (rest, p) = (
    i ∷ rest,
    subst (λ u. P (run id routed answered rest (move id routed answered i u s))) (sym e) p,
  )

  pub run-append :
      (first second : List ℕ) (s : Threads Buf)
      → run id routed answered (first ++ second) s
        ≡ run id routed answered second (run id routed answered first s)
  unfolding run
  run-append [] second s = refl
  run-append (i ∷ is) second s = run-append is second (step id routed answered i s)

  pub then_later :
      (P Q : Threads Buf → Type 0) (s : Threads Buf)
      → Eventually P s
      → ((s' : Threads Buf) → P s' → Eventually Q s')
      → Eventually Q s
  then_later P Q s (rest, p) f =
      let (more, q) = f (run id routed answered rest s) p in
      (rest ++ more, subst Q (sym (run-append rest more s)) q)

  assign_self : (f : ℕ → Task Buf) (i : ℕ) (t : Task Buf) → assign f i t i ≡ t
  assign_self f i t = rw ((==_iff i i).1 refl) refl

  -- One step to another place of the same thread.
  to :
      (P : Threads Buf → Type 0) (i : ℕ) (s : Threads Buf) (t u : Task Buf) (y : Shared)
      → s.tasks i ≡ t
      → move id routed answered i t s ≡ proceed i u y s
      → Eventually P (proceed i u y s)
      → Eventually P s
  to P i s t u y e h p = later P i s t e (subst (Eventually P) (sym h) p)

  pub goes :
      (P : Threads Buf → Type 0) (i : ℕ) (s : Threads Buf) (t u : Task Buf) (y : Shared)
      → s.tasks i ≡ t
      → move id routed answered i t s ≡ proceed i u y s
      → ((s' : Threads Buf) → s'.tasks i ≡ u → Eventually P s')
      → Eventually P s
  goes P i s t u y e h f = to P i s t u y e h (f (proceed i u y s) (assign_self s.tasks i u))

  -- The test, when its two ends are dealt with.
  pub tested :
      (P : Threads Buf → Type 0) (i : ℕ) (m : ModbusMessage Buf)
      → ((s : Threads Buf) → s.tasks i ≡ refusing → Eventually P s)
      → ((s : Threads Buf) → s.tasks i ≡ matched m → Eventually P s)
      → (o : Option ModbusMessageInfo) (s : Threads Buf) → s.tasks i ≡ check m o
      → Eventually P s
  tested P i m f g none s e = f s e
  tested P i m f g (some last) s e =
      elim (Bool-cases (last.transaction_id == m.info.transaction_id)) [
        | inl q ↦ g s (e ∙ rw (check, q) refl)
        | inr q ↦ f s (e ∙ rw (check, q) refl)
      ]
