-- ===== src/Gateway/Masters.antt =====
-- MakeMasters: the order of the masters and their ids.
use mathlib.Core.List.{reverse, reverse-cons, map-append, append_assoc, append-nil}
use modbus_gateway.Base.{
  ℕ, ◌≡◌, ◌≢◌, sym, ap, subst, ◌∙◌, true, List, [], ◌∷◌, ◌++◌, map, All, All-append, All-map, inl,
  inr, if◌then◌else◌, Bool-cases, arith,
}
use modbus_gateway.Exchange.{Exchange}
use modbus_gateway.Exchange
use modbus_gateway.Exception.{ok, bind_returns, ok-injective}
use modbus_gateway.Config.Types.{TransportConfig, tcp_server, rtu_slave, tcp_client, rtu_master}
use modbus_gateway.Gateway.{
  System, Master, make_master, make_masters_from, make_masters, is_default, insert_master,
}

module _ {Addr : Type 0} where
  -- The configurations without unit ids, and those with some.
  abbrev pub defaults : List (TransportConfig Addr) → List (TransportConfig Addr)
  defaults [] = []
  defaults (c ∷ cs) = if is_default c then c ∷ defaults cs else defaults cs

  abbrev pub others : List (TransportConfig Addr) → List (TransportConfig Addr)
  others [] = []
  others (c ∷ cs) = if is_default c then others cs else c ∷ others cs

  abbrev pub configs : List (Master Addr) → List (TransportConfig Addr)
  configs = map (λ m. m.config)

  insert_master-configs :
      (m : Master Addr) (acc : List (Master Addr)) (cs : List (TransportConfig Addr))
      → reverse (defaults cs) ++ (configs (insert_master m acc) ++ others cs)
        ≡ reverse (defaults (m.config ∷ cs)) ++ (configs acc ++ others (m.config ∷ cs))
  insert_master-configs m acc cs = elim (Bool-cases (is_default m.config)) [
    | inl d ↦ rw d (simp (reverse-cons, append_assoc))
    | inr d ↦ rw d (simp (map-append, append_assoc))
  ]

  -- No id is in use twice.
  abbrev pub Fresh : ℕ → List (Master Addr) → Type 0
  Fresh id = All (λ m. m.actor ≢ id)

  abbrev pub Distinct : List (Master Addr) → Type 0
  Distinct [] = Unit
  Distinct (m ∷ ms) = Fresh m.actor ms × Distinct ms

  Distinct-append :
      (xs : List (Master Addr)) (m : Master Addr)
      → Distinct xs
      → Fresh m.actor xs
      → Distinct (xs ++ m ∷ [])
  Distinct-append [] m d f = (tt, tt)
  Distinct-append (x ∷ xs) m d f =
      (All-append _ xs m d.0 (λ e. f.0 (sym e)), Distinct-append xs m d.1 f.1)

  insert_master-Distinct :
      (m : Master Addr) (acc : List (Master Addr))
      → Distinct acc
      → Fresh m.actor acc
      → Distinct (insert_master m acc)
  insert_master-Distinct m acc d f = elim (Bool-cases (is_default m.config)) [
    | inl e ↦ rw e (f, d)
    | inr e ↦ rw e (Distinct-append acc m d f)
  ]

module _ {Addr Table : Type 0} (system : System Addr) (exchange : Exchange Table) where
  make_master-ok :
      (c : TransportConfig Addr) (t t' : Table) (m : Master Addr)
      → make_master system exchange c t ≡ ok (m, t')
      → (m.config ≡ c) × (m.actor ≡ (exchange.add t).0) × (t' ≡ (exchange.add t).1)
  unfolding make_master
  make_master-ok (tcp_server c) t t' m h = cc
  make_master-ok (rtu_slave c) t t' m h = cc
  make_master-ok (tcp_client c) t t' m h = ground arith
  make_master-ok (rtu_master c) t t' m h = ground arith

  make_masters_from-configs :
      (acc : List (Master Addr)) (cs : List (TransportConfig Addr)) (t t' : Table)
      (ms : List (Master Addr))
      → make_masters_from system exchange acc cs t ≡ ok (ms, t')
      → configs ms ≡ reverse (defaults cs) ++ (configs acc ++ others cs)
  unfolding make_masters_from
  make_masters_from-configs acc [] t t' ms h = rw append-nil (ground arith)
  make_masters_from-configs acc (c ∷ cs) t t' ms h =
      let ((m, t₁), e, k) = bind_returns (make_master system exchange c t) _ h in
      subst (λ x. configs ms ≡ reverse (defaults (x ∷ cs)) ++ (configs acc ++ others (x ∷ cs)))
        (make_master-ok c t t₁ m e).0
        (make_masters_from-configs (insert_master m acc) cs t₁ t' ms k
          ∙ insert_master-configs m acc cs)

  -- If MakeMasters succeeds, its masters have the configurations that it was given, in their order,
  -- except that those without unit ids come first, the last configured one in front.
  pub make_masters-configs :
      (cs : List (TransportConfig Addr)) (t t' : Table) (ms : List (Master Addr))
      → make_masters system exchange cs t ≡ ok (ms, t')
      → configs ms ≡ reverse (defaults cs) ++ others cs
  unfolding make_masters
  make_masters-configs cs t t' ms h = make_masters_from-configs [] cs t t' ms h

module _ {Addr Table : Type 0} (exchange : Exchange Table) where
  -- Every master of the list has a registered id.
  abbrev pub Registered : Table → List (Master Addr) → Type 0
  Registered t = All (λ m. exchange.registered t m.actor ≡ true)

  Registered-insert :
      (t : Table) (m : Master Addr) (ms : List (Master Addr))
      → Registered t ms
      → exchange.registered t m.actor ≡ true
      → Registered t (insert_master m ms)
  Registered-insert t m ms r q = elim (Bool-cases (is_default m.config)) [
    | inl e ↦ rw e (q, r)
    | inr e ↦ rw e (All-append _ ms m r q)
  ]

  Registered-Fresh :
      (laws : Exchange.Laws exchange) (t : Table) (ms : List (Master Addr))
      → Registered t ms
      → Fresh (exchange.add t).0 ms
  Registered-Fresh laws t ms =
      All-map _ _ ms (λ m r e. cc (laws.add_fresh t, r, ap (exchange.registered t) e))

module _ {Addr Table : Type 0} (system : System Addr) (exchange : Exchange Table)
    (laws : Exchange.Laws exchange) where
  make_masters_from-Distinct :
      (acc : List (Master Addr)) (cs : List (TransportConfig Addr)) (t t' : Table)
      (ms : List (Master Addr))
      → make_masters_from system exchange acc cs t ≡ ok (ms, t')
      → Distinct acc
      → Registered exchange t acc
      → Distinct ms × Registered exchange t' ms
  unfolding make_masters_from
  make_masters_from-Distinct acc [] t t' ms h d r =
      subst (λ (x : List (Master Addr) × Table). Distinct x.0 × Registered exchange x.1 x.0)
        (ok-injective h) (d, r)
  make_masters_from-Distinct acc (c ∷ cs) t t' ms h d r =
      let ((m, t₁), e, k) = bind_returns (make_master system exchange c t) _ h in
      let (_, a, q) = make_master-ok system exchange c t t₁ m e in
      make_masters_from-Distinct (insert_master m acc) cs t₁ t' ms k
        (insert_master-Distinct m acc d (rw a (Registered-Fresh exchange laws t acc r)))
        (rw q (
          Registered-insert exchange (exchange.add t).1 m acc
            (All-map _ _ acc (λ x. laws.add_keeps t x.actor) r) (rw a (laws.add_registered t))))

  -- With the documented behaviour of the exchange: if MakeMasters succeeds, its masters have
  -- pairwise different ids, each of them registered with the exchange.
  pub make_masters-Distinct :
      (cs : List (TransportConfig Addr)) (t t' : Table) (ms : List (Master Addr))
      → make_masters system exchange cs t ≡ ok (ms, t')
      → Distinct ms × Registered exchange t' ms
  unfolding make_masters
  make_masters-Distinct cs t t' ms h = make_masters_from-Distinct [] cs t t' ms h tt tt
