-- ===== src/Config/Validators/Clients.antt =====
-- ValidateClients: no unit id is claimed by two ranges.
use mathlib.Core.List.{append_assoc, append-nil}
use modbus_gateway.Base.{
  ℕ, ◌+◌, ◌≤◌, ◌≡◌, ◌⊎◌, refl, ap, subst, ◌∙◌, Bool, true, false, none, List, [], ◌∷◌, ◌++◌,
  if◌then◌else◌, inl, inr, arith,
}
use modbus_gateway.Modbus.{UnitIds}
use modbus_gateway.Exception.{ok, ok-injective}
use modbus_gateway.Config.Types.{
  TransportConfig, tcp_server, rtu_slave, tcp_client, rtu_master, UnitIdRange,
}
use modbus_gateway.Config.TracePath.{TracePath}
use modbus_gateway.Config.Extract.{Extract, pure, throw_invalid_value}
use modbus_gateway.Config.Extract.Ensures.{
  Ensures, Ensures-pure, Ensures-bind, Ensures-any, Ensures-trace_deep,
}
use modbus_gateway.Gateway.Routes.{in_range, ranges_of}
use modbus_gateway.Config.Validators.{
  Addresses, has_same, UnitIdRangeValidator, new_validator, insert_ranges, insert, Progress,
  add_client, add_client_at, add_clients, validate_clients, is_any,
}

-- How many of the ranges hold the unit id.
abbrev pub claim_count : ℕ → List UnitIdRange → ℕ
claim_count u [] = 0
claim_count u (r ∷ rs) = (if in_range r u then 1 else 0) + claim_count u rs

-- The ranges of all clients, in their order.
abbrev pub all_ranges : {Addr : Type 0} → List (TransportConfig Addr) → List UnitIdRange
all_ranges [] = []
all_ranges (c ∷ cs) = ranges_of c ++ all_ranges cs

claim_count-append :
    (u : ℕ) (xs ys : List UnitIdRange)
    → claim_count u (xs ++ ys) ≡ claim_count u xs + claim_count u ys
claim_count-append u [] ys = omega arith
claim_count-append u (x ∷ xs) ys = omega (arith, claim_count-append u xs ys)

-- What the std::set takes for the same overlaps.
has_same-claims :
    (u : ℕ) (rs : List UnitIdRange) (r : UnitIdRange)
    → has_same rs r ≡ false
    → in_range r u ≡ true
    → claim_count u rs ≡ 0
has_same-claims u [] r h i = refl
has_same-claims u (s ∷ rs) r h i = ground (arith, has_same-claims u rs r)

if-ok :
    {A : Type 0} (b : Bool) (m n : Extract A) (path : TracePath) {a : A}
    → ((if b then m else n) path).0 ≡ ok a
    → ((b ≡ true) × ((m path).0 ≡ ok a)) ⊎ ((b ≡ false) × ((n path).0 ≡ ok a))
if-ok true m n path h = inl (refl, h)
if-ok false m n path h = inr (refl, h)

module _ {Addr : Type 0} (addresses : Addresses Addr) (ids : UnitIds) where
  -- The ranges were added to those of the clients before, and no unit id is in two of them.
  abbrev Adds : UnitIdRangeValidator → List UnitIdRange → UnitIdRangeValidator → Type 0
  Adds v rs v' =
      (v'.unit_id_set ≡ v.unit_id_set ++ rs)
      × ((u : ℕ) → claim_count u v.unit_id_set ≤ 1 → claim_count u v'.unit_id_set ≤ 1)

  insert_ranges-Adds :
      (rs : List UnitIdRange) (v v' : UnitIdRangeValidator) (path : TracePath)
      → (insert_ranges addresses ids rs v path).0 ≡ ok v'
      → Adds v rs v'
  insert_ranges-Adds [] v v' path h =
      subst (Adds v []) (ok-injective h) (rw append-nil refl, λ u c. c)
  insert_ranges-Adds (r ∷ rs) v v' path h = elim (if-ok (has_same v.unit_id_set r) _ _ path h) [
    | inl (e, q) ↦ cc
    | inr (e, q) ↦
        let (same, bound) = insert_ranges-Adds rs _ v' path q in
        (
          same ∙ append_assoc v.unit_id_set (r ∷ []) rs,
          λ u c. bound u (
              ground (
                arith,
                claim_count-append u v.unit_id_set (r ∷ []),
                has_same-claims u v.unit_id_set r e,
              )),
        )
  ]

  insert-Adds :
      (rs : List UnitIdRange) (v v' : UnitIdRangeValidator) (path : TracePath)
      → (insert addresses ids rs v path).0 ≡ ok v'
      → Adds v rs v'
  insert-Adds [] v v' path h = elim (if-ok v.default_unit_ids_client _ _ path h) [
    | inl (e, q) ↦ cc
    | inr (e, q) ↦ subst (Adds v []) (ok-injective q) (rw append-nil refl, λ u c. c)
  ]
  insert-Adds (r ∷ rs) v v' path h = insert_ranges-Adds (r ∷ rs) v v' path h

  -- The same of what a client, and a list of clients, leave behind.
  abbrev AddsTo : UnitIdRangeValidator → List UnitIdRange → Progress addresses ids → Type 0
  AddsTo v rs p = Adds v rs p.1

  add_client-Adds :
      (c : TransportConfig Addr) (p : Progress addresses ids)
      → Ensures (AddsTo p.1 (ranges_of c)) (add_client addresses ids p c)
  add_client-Adds (tcp_client c) (f, v) =
      Ensures-bind (AddsTo v c.unit_id_set) (λ _. Unit {0}) _ _
        (Ensures-any (
          if is_any addresses c.address
          then throw_invalid_value "0" "any ip address don't allow for client"
          else pure tt))
        (λ u _.
          Ensures-bind (AddsTo v c.unit_id_set) (λ _. Unit {0}) _ _
            (Ensures-any (add_client_at addresses ids f c.port c.address (f c.port)))
            (λ f' _.
              Ensures-bind (AddsTo v c.unit_id_set) (Adds v c.unit_id_set) _ _
                (record { holds = λ path v'. insert-Adds c.unit_id_set v v' path })
                (λ v' a. Ensures-pure (AddsTo v c.unit_id_set) (f', v') a)))
  add_client-Adds (tcp_server c) p = record { holds = λ path p' h. cc }
  add_client-Adds (rtu_slave c) p = record { holds = λ path p' h. cc }
  add_client-Adds (rtu_master c) p = record { holds = λ path p' h. cc }

  add_clients-Adds :
      (cs : List (TransportConfig Addr)) (p : Progress addresses ids)
      → Ensures (AddsTo p.1 (all_ranges cs)) (add_clients addresses ids p cs)
  unfolding add_clients
  add_clients-Adds [] p = Ensures-pure (AddsTo p.1 []) p (rw append-nil refl, λ u b. b)
  add_clients-Adds (c ∷ cs) p =
      Ensures-bind (AddsTo p.1 (all_ranges (c ∷ cs))) (AddsTo p.1 (ranges_of c)) _ _
        (Ensures-trace_deep (AddsTo p.1 (ranges_of c)) "0" (add_client addresses ids p c)
          (add_client-Adds c p))
        (λ p₁ a. record {
          holds = λ path p' h. joins p₁ p' a ((add_clients-Adds cs p₁).holds path p' h);
        })
    where
      joins :
          (p₁ p' : Progress addresses ids)
          → AddsTo p.1 (ranges_of c) p₁
          → AddsTo p₁.1 (all_ranges cs) p'
          → AddsTo p.1 (all_ranges (c ∷ cs)) p'
      joins p₁ p' (same, bound) (same', bound') = (
        same'
            ∙ ap (λ set. set ++ all_ranges cs) same
            ∙ append_assoc p.1.unit_id_set (ranges_of c) (all_ranges cs),
        λ u b. bound' u (bound u b),
      )

  -- No unit id is in two of the ranges.
  abbrev IsDisjoint : List UnitIdRange → Type 0
  IsDisjoint rs = (u : ℕ) → claim_count u rs ≤ 1

  validate_clients-Ensures :
      (cs : List (TransportConfig Addr))
      → Ensures (λ (u : Unit {0}). IsDisjoint (all_ranges cs)) (validate_clients addresses ids cs)
  unfolding validate_clients
  validate_clients-Ensures cs =
      Ensures-trace_deep (λ _. IsDisjoint (all_ranges cs)) "clients" _
        (Ensures-bind (λ _. IsDisjoint (all_ranges cs)) (AddsTo new_validator (all_ranges cs)) _ _
          (add_clients-Adds cs ((λ q. none), new_validator))
          (λ p (same, bound). record {
            holds = λ path u h v. subst (λ rs. claim_count v rs ≤ 1) same (bound v (omega arith));
          }))

  -- If ValidateClients ends without an exception, then no unit id is in two of the ranges of all
  -- masters together.
  pub validate_clients-claim_count :
      (cs : List (TransportConfig Addr)) (path : TracePath)
      → (validate_clients addresses ids cs path).0 ≡ ok tt
      → (u : ℕ) → claim_count u (all_ranges cs) ≤ 1
  validate_clients-claim_count cs path h u = (validate_clients-Ensures cs).holds path tt h u
