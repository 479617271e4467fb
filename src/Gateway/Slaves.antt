-- ===== src/Gateway/Slaves.antt =====
-- MakeSlaves: the slaves get ids that no master has.
use modbus_gateway.Base.{
  ℕ, ◌≡◌, subst, Bool, true, false, ◌||◌, ◌==◌, List, [], ◌∷◌, ◌++◌, All, All-append, All-map,
  Bool-cases, inl, inr, arith,
}
use modbus_gateway.Exchange
use modbus_gateway.Exchange.{Exchange}
use modbus_gateway.Exception.{ok, bind_returns, ok-injective}
use modbus_gateway.Config.Types.{TransportConfig, tcp_server, rtu_slave, tcp_client, rtu_master}
use modbus_gateway.Gateway.{System, Master, Slave, make_slave, make_slaves_from, make_slaves}
use modbus_gateway.Gateway.Masters.{Registered}

-- Whether a master of the list has this id.
abbrev pub has_id : {Addr : Type 0} → List (Master Addr) → ℕ → Bool
has_id [] i = false
has_id (m ∷ ms) i = m.actor == i || has_id ms i

pub has_id_self : {Addr : Type 0} (ms : List (Master Addr)) → All (λ m. has_id ms m.actor ≡ true) ms
has_id_self [] = tt
has_id_self (m ∷ ms) = (ground arith, All-map _ _ ms (λ x h. ground arith) (has_id_self ms))

module _ {Table : Type 0} (exchange : Exchange Table) where
  -- Every master's id is registered.
  abbrev pub Holds : (ℕ → Bool) → Table → Type 0
  Holds is_master t = (i : ℕ) → is_master i ≡ true → exchange.registered t i ≡ true

  pub has_id-Holds :
      {Addr : Type 0} (t : Table) (ms : List (Master Addr))
      → Registered exchange t ms
      → Holds (has_id ms) t
  has_id-Holds t [] r i h = cc
  has_id-Holds t (m ∷ ms) r i h = elim (Bool-cases (m.actor == i)) [
    | inl e ↦ ground (arith, r.0)
    | inr e ↦ has_id-Holds t ms r.1 i (ground arith)
  ]

module _ {Addr Table : Type 0} (system : System Addr) (exchange : Exchange Table) where
  make_slave-ok :
      (c : TransportConfig Addr) (t t' : Table) (s : Slave Addr)
      → make_slave system exchange c t ≡ ok (s, t')
      → (s.actor ≡ (exchange.add t).0) × (t' ≡ (exchange.add t).1)
  unfolding make_slave
  make_slave-ok (tcp_client c) t t' s h = cc
  make_slave-ok (rtu_master c) t t' s h = cc
  make_slave-ok (tcp_server c) t t' s h = ground arith
  make_slave-ok (rtu_slave c) t t' s h = ground arith

module _ {Addr Table : Type 0} (system : System Addr) (exchange : Exchange Table)
    (laws : Exchange.Laws exchange) (is_master : ℕ → Bool) where
  -- No slave has a master's id.
  abbrev pub AllOutside : List (Slave Addr) → Type 0
  AllOutside = All (λ s. is_master s.actor ≡ false)

  add-outside : (t : Table) → Holds exchange is_master t → is_master (exchange.add t).0 ≡ false
  add-outside t h = elim (Bool-cases (is_master (exchange.add t).0)) [
    | inl e ↦ cc (h (exchange.add t).0 e, laws.add_fresh t)
    | inr e ↦ e
  ]

  make_slaves_from-outside :
      (acc : List (Slave Addr)) (cs : List (TransportConfig Addr)) (t t' : Table)
      (ss : List (Slave Addr))
      → make_slaves_from system exchange acc cs t ≡ ok (ss, t')
      → AllOutside acc
      → Holds exchange is_master t
      → AllOutside ss × Holds exchange is_master t'
  unfolding make_slaves_from
  make_slaves_from-outside acc [] t t' ss h a m =
      subst (λ (x : List (Slave Addr) × Table). AllOutside x.0 × Holds exchange is_master x.1)
        (ok-injective h) (a, m)
  make_slaves_from-outside acc (c ∷ cs) t t' ss h a m =
      let ((s, t₁), e, k) = bind_returns (make_slave system exchange c t) _ h in
      let (q, r) = make_slave-ok system exchange c t t₁ s e in
      make_slaves_from-outside (acc ++ s ∷ []) cs t₁ t' ss k
        (All-append _ acc s a (rw q (add-outside t m)))
        (λ i here. rw r (laws.add_keeps t i (m i here)))

  -- If the masters are registered, MakeSlaves gives every slave another id and keeps them so.
  pub make_slaves-outside :
      (cs : List (TransportConfig Addr)) (t t' : Table) (ss : List (Slave Addr))
      → make_slaves system exchange cs t ≡ ok (ss, t')
      → Holds exchange is_master t
      → AllOutside ss × Holds exchange is_master t'
  unfolding make_slaves
  make_slaves-outside cs t t' ss h m = make_slaves_from-outside [] cs t t' ss h tt m
