-- ===== src/Transport/Overlap/Places.antt =====
-- Where the threads are, against handlers that run one at a time.
use modbus_gateway.Base.{
  ℕ, ◌≡◌, sym, ap, subst, ◌∙◌, true, false, none, some, List, [], ◌==◌, ==_iff, Bool-cases, ◌⊎◌,
  inl, inr,
}
use modbus_gateway.Message.{ModbusMessage, ModbusMessageInfo}
use modbus_gateway.Transport.{Effect}
use modbus_gateway.Transport.Overlap.{
  Task, request, storing, stored, routing, response, checking, matched, answering, sending,
  refusing, finished, Threads, proceed,
}
use modbus_gateway.Transport.Overlap.Turns.{Shared, Turns, Whole, take_turn}

module _ {Buf : Type 0} (id : ℕ) (routed answered : ModbusMessage Buf → List (Effect Buf)) where
  -- Where a thread's handler is, against the same handler when it runs alone.
  abbrev pub IsAt : ℕ → Shared → Task Buf → Task Buf → Type 0
  IsAt i x (request m) u = u ≡ request m
  IsAt i x (storing m) u = (u ≡ request m) × (x.holder ≡ some i)
  IsAt i x (stored m) u = (u ≡ finished (routed m)) × (x.holder ≡ some i)
  IsAt i x (routing m) u = u ≡ finished (routed m)
  IsAt i x (response m) u = u ≡ response m
  IsAt i x (checking m) u =
      (u ≡ response m) × (x.holder ≡ some i) × ((id == m.info.source_id) ≡ true)
  IsAt i x (matched m) u =
      (u ≡ response m)
      × (x.holder ≡ some i)
      × ((id == m.info.source_id) ≡ true)
      × (last : ModbusMessageInfo) × (x.value ≡ some last)
      × ((last.transaction_id == m.info.transaction_id) ≡ true)
  IsAt i x (answering m) u = (u ≡ finished (answered m)) × (x.holder ≡ some i)
  IsAt i x (sending m) u = u ≡ finished (answered m)
  IsAt i x refusing u = (u ≡ finished []) × (x.holder ≡ some i)
  IsAt i x (finished es) u = u ≡ finished es

  pub record Follows (a : Turns Buf) (s : Threads Buf) : Type 0 where
    pub request_info : a.request_info ≡ s.request_info.value
    pub tasks : (i : ℕ) → IsAt i s.request_info (s.tasks i) (a.tasks i)

  -- No other thread is in an access.
  abbrev pub IsAlone : ℕ → Shared → Type 0
  IsAlone i x = (x.holder ≡ none) ⊎ (x.holder ≡ some i)

  alone : (i j : ℕ) (x : Shared) → IsAlone i x → (i == j) ≡ false → x.holder ≡ some j → ⊥
  alone i j x (inl n) d h = cc
  alone i j x (inr n) d h = cc (d, (==_iff i j).1 (same n h))
    where
      same : x.holder ≡ some i → x.holder ≡ some j → i ≡ j
      same p q = cc

  -- A thread outside the access does not see what the one inside does.
  IsAt-other :
      (i j : ℕ) (x y : Shared) (t u : Task Buf)
      → IsAlone i x
      → (i == j) ≡ false
      → IsAt j x t u
      → IsAt j y t u
  IsAt-other i j x y (request m) u n d h = h
  IsAt-other i j x y (storing m) u n d h = absurd (alone i j x n d h.1)
  IsAt-other i j x y (stored m) u n d h = absurd (alone i j x n d h.1)
  IsAt-other i j x y (routing m) u n d h = h
  IsAt-other i j x y (response m) u n d h = h
  IsAt-other i j x y (checking m) u n d (e, h, r) = absurd (alone i j x n d h)
  IsAt-other i j x y (matched m) u n d h = absurd (alone i j x n d h.1)
  IsAt-other i j x y (answering m) u n d h = absurd (alone i j x n d h.1)
  IsAt-other i j x y (sending m) u n d h = h
  IsAt-other i j x y refusing u n d h = absurd (alone i j x n d h.1)
  IsAt-other i j x y (finished es) u n d h = h

  others :
      (a : Turns Buf) (s : Threads Buf) (i : ℕ) (y : Shared)
      → Follows a s
      → IsAlone i s.request_info ⊎ (y ≡ s.request_info)
      → (j : ℕ) → (i == j) ≡ false
      → IsAt j y (s.tasks j) (a.tasks j)
  others a s i y v (inl k) j q =
      IsAt-other i j s.request_info y (s.tasks j) (a.tasks j) k q (v.tasks j)
  others a s i y v (inr k) j q = subst (λ x. IsAt j x (s.tasks j) (a.tasks j)) (sym k) (v.tasks j)

  -- Another place in the same handler.
  pub quiet-Follows :
      (a : Turns Buf) (s : Threads Buf) (i : ℕ) (t : Task Buf) (y : Shared)
      → Follows a s
      → IsAlone i s.request_info ⊎ (y ≡ s.request_info)
      → s.request_info.value ≡ y.value
      → IsAt i y t (a.tasks i)
      → Follows a (proceed i t y s)
  quiet-Follows a s i t y v n e h = record {
    request_info = v.request_info ∙ e;
    tasks = λ j. elim (Bool-cases (i == j)) [
      | inl q ↦ rw q (subst (λ k. IsAt k y t (a.tasks k)) ((==_iff i j).0 q) h)
      | inr q ↦ rw q (others a s i y v n j q)
    ];
  }

  module _ (whole : Whole Buf) where
    -- The place where a handler takes its turn.
    pub turn-Follows :
        (a : Turns Buf) (s : Threads Buf) (i : ℕ) (t : Task Buf) (y : Shared)
        (es : List (Effect Buf))
        → Follows a s
        → IsAlone i s.request_info ⊎ (y ≡ s.request_info)
        → whole (a.tasks i) a.request_info ≡ (y.value, es)
        → IsAt i y t (finished es)
        → Follows (take_turn whole i a) (proceed i t y s)
    turn-Follows a s i t y es v n e h = record {
      request_info = ap (λ out. out.0) e;
      tasks = λ j. elim (Bool-cases (i == j)) [
        | inl q ↦ rw (q, e) (subst (λ k. IsAt k y t (finished es)) ((==_iff i j).0 q) h)
        | inr q ↦ rw q (others a s i y v n j q)
      ];
    }
