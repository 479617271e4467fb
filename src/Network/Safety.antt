-- ===== src/Network/Safety.antt =====
-- From the start of the gateway on: every frame that a master sends is routed to it.
use Prim.Native.String.{String}
use modbus_gateway.Base.{
  ℕ, ◌≡◌, ◌<◌, ◌≤◌, ◌⊎◌, ◌≢◌, Option, inl, inr, sym, ap, subst, ◌∙◌, true, false, none, some, List,
  [], ◌∷◌, All, All-map, ltb, Bool-cases, arith,
}
use modbus_gateway.Modbus
use modbus_gateway.Modbus.{Modbus, UnitIds}
use modbus_gateway.Exchange
use modbus_gateway.Exchange.{Exchange}
use modbus_gateway.Router.{route}
use modbus_gateway.Exception.{ok, bind_returns, ok-injective, or_throw, logic_error}
use modbus_gateway.Transport.{Effect, start_send, deliver, undefined_behaviour}
use modbus_gateway.Message.{modbus_message, client_disconnect}
use modbus_gateway.Transport.Traffic.{IsAllowed}
use modbus_gateway.Config.Json.{Json, Asio}
use modbus_gateway.Config.Reader.{Config, read_config, validate}
use modbus_gateway.Gateway.{System, make_masters, make_slaves, make_router}
use modbus_gateway.Gateway.Masters.{make_masters-Distinct}
use modbus_gateway.Gateway.Slaves.{has_id, has_id_self, Holds, has_id-Holds, make_slaves-outside}
use modbus_gateway.Gateway.Routes.{RoutesAll, last_claimant, or_else, fallback}
use modbus_gateway.Gateway.Startup.{Gateway, start_gateway, start_program, throw_if, is_empty}
use modbus_gateway.Gateway.Safety.{RoutesGateway}
use modbus_gateway.Gateway.Outcomes.{RunsWell}
use modbus_gateway.Gateway.Program.{start_program-RunsWell}
use modbus_gateway.Network.{Event, ends, arrives, connects, accepts, sends, waits, receives, run}
use modbus_gateway.Network.Launch.{launch}
use modbus_gateway.Network.Steps.{AllInside, run-IsRouted}
use modbus_gateway.Network.Started.{launch-IsRouted}

-- What a gateway's ids are when it was started: every master is registered, and no slave has its id.
abbrev pub IsSeparate : {Addr Table : Type 0} → Exchange Table → Gateway Addr Table → Type 0
IsSeparate exchange gateway =
    All (λ s. has_id gateway.masters s.actor ≡ false) gateway.slaves
    × Holds exchange (has_id gateway.masters) gateway.table

module _ {Addr Table : Type 0} (system : System Addr) (exchange : Exchange Table)
    (exchange_laws : Exchange.Laws exchange) where
  start_gateway-IsSeparate :
      (limit : ℕ) (config : Config Addr) (t : Table) (gateway : Gateway Addr Table)
      → start_gateway system exchange limit config t ≡ ok gateway
      → IsSeparate exchange gateway
  unfolding start_gateway
  start_gateway-IsSeparate limit config t gateway h =
      let ((ms, t₁), e₁, h₁) = bind_returns (make_masters system exchange config.masters t) _ h in
      let (_, _, h₂) = bind_returns (throw_if (is_empty ms) "BUG! masters is empty") _ h₁ in
      let (r, _, h₃) = bind_returns (make_router limit exchange.default_id ms) _ h₂ in
      let (router, _, h₄) = bind_returns (or_throw (logic_error "BUG! router is null") r) _ h₃ in
      let ((ss, t₂), e₅, h₅) = bind_returns (make_slaves system exchange config.slaves t₁) _ h₄ in
      let (_, _, h₆) = bind_returns (throw_if (is_empty ss) "BUG! slaves is empty") _ h₅ in
      let registered =
        (make_masters-Distinct system exchange exchange_laws config.masters t t₁ ms e₁).1 in
      subst (IsSeparate exchange) (ok-injective h₆) (
        make_slaves-outside system exchange exchange_laws (has_id ms) config.slaves t₁ t₂ ss e₅
          (has_id-Holds exchange t₁ ms registered))

-- A frame is received whose unit id is not in the table.
abbrev pub IsPast : {Buf : Type 0} → Modbus Buf → UnitIds → Event Buf → Type 0
IsPast modbus ids (ends i (receives ec b size clock)) =
    ids.limit ≤ modbus.get_unit_id (modbus.set_adu_size size b).1
IsPast modbus ids _ = ⊥

abbrev pub AnyPast : {Buf : Type 0} → Modbus Buf → UnitIds → List (Event Buf) → Type 0
AnyPast modbus ids [] = ⊥
AnyPast modbus ids (e ∷ es) = IsPast modbus ids e ⊎ AnyPast modbus ids es

-- What an actor may do in a course of events: a master sends frames only if it is the last master
-- that claims the frame's unit id, or the fallback for one that none claims; what is sent to a master
-- is a frame of the same kind, to be answered to an actor that is not a master; no master is reported
-- as disconnected; and behaviour is undefined only at a slave, and only if a frame was received whose
-- unit id is not in the table.
abbrev pub IsOwn :
    {Addr Buf Table : Type 0} → Modbus Buf → UnitIds → ℕ → Gateway Addr Table → ℕ → Buf → Type 0
IsOwn modbus ids default_id gateway i b =
    modbus.get_unit_id b < ids.limit
    → or_else (last_claimant gateway.masters (modbus.get_unit_id b))
        (some (fallback default_id gateway.masters))
      ≡ some i

abbrev pub SendsOwn :
    {Addr Buf Table : Type 0}
    → Modbus Buf
    → UnitIds
    → ℕ
    → Gateway Addr Table
    → List (Event Buf)
    → ℕ × Effect Buf
    → Type 0
SendsOwn modbus ids default_id gateway es (i, start_send b size) =
    has_id gateway.masters i ≡ true → IsOwn modbus ids default_id gateway i b
SendsOwn {Buf = Buf} modbus ids default_id gateway es (i, deliver j (modbus_message m)) =
    has_id gateway.masters j ≡ true
    → (b : Buf) × (m.buffer ≡ some b)
      × IsOwn modbus ids default_id gateway j b
      × (has_id gateway.masters m.info.source_id ≡ false)
SendsOwn modbus ids default_id gateway es (i, deliver j (client_disconnect k)) =
    has_id gateway.masters k ≡ false
SendsOwn modbus ids default_id gateway es (i, undefined_behaviour) =
    (has_id gateway.masters i ≡ false) × AnyPast modbus ids es
SendsOwn modbus ids default_id gateway es (i, _) = Unit

module _ {Addr Buf Table : Type 0} (modbus : Modbus Buf) (ids : UnitIds) (default_id : ℕ)
    (gateway : Gateway Addr Table)
    (routes : RoutesAll ids.limit default_id gateway.masters (ok (some gateway.router))) where
  router-routes :
      (u : ℕ)
      → u < ids.limit
      → route gateway.router u
        ≡ or_else (last_claimant gateway.masters u) (some (fallback default_id gateway.masters))
  router-routes u h =
      let (r, e, s, p) = routes in ap (λ x. route x u) (some-injective (ok-injective e)) ∙ p u h
    where
      some-injective : {A : Type 0} {a b : A} → some a ≡ some b → a ≡ b
      some-injective q = cc

  IsAllowed-SendsOwn :
      (es : List (Event Buf)) (entry : ℕ × Effect Buf)
      → IsAllowed modbus gateway.router
          (has_id gateway.masters)
          (AnyPast modbus ids es)
          entry.0
          entry.1
      → SendsOwn modbus ids default_id gateway es entry
  IsAllowed-SendsOwn es (i, start_send b size) h =
      λ m u. sym (router-routes (modbus.get_unit_id b) u) ∙ h m
  IsAllowed-SendsOwn es (i, deliver j (modbus_message m)) h = λ k.
      let (b, e, q, o) = h k in (b, e, (λ u. sym (router-routes (modbus.get_unit_id b) u) ∙ q), o)
  IsAllowed-SendsOwn es (i, deliver j (client_disconnect k)) h = h
  IsAllowed-SendsOwn es (i, undefined_behaviour) h = h
  IsAllowed-SendsOwn es (i, _) h = tt

  or_else-found : (o : Option ℕ) (x : ℕ) → or_else o (some x) ≢ none
  or_else-found none x e = cc
  or_else-found (some y) x e = cc

  -- Only a unit id that is not in the table has no route.
  unrouted-past : (u : ℕ) → route gateway.router u ≡ none → ids.limit ≤ u
  unrouted-past u e = elim (Bool-cases (ltb u ids.limit)) [
    | inr k ↦ ground arith
    | inl k ↦ absurd (
        or_else-found (last_claimant gateway.masters u) (fallback default_id gateway.masters)
          (sym (router-routes u (ground arith)) ∙ e))
  ]

  -- Every course of events, with what is past the table in it.
  course-AllInside :
      (Past : Type 0) (es : List (Event Buf))
      → (AnyPast modbus ids es → Past)
      → AllInside modbus gateway.router (has_id gateway.masters) Past es
  course-AllInside Past [] h = tt
  course-AllInside Past (ends i (receives ec b size clock) ∷ es) h =
      ((λ e. h (inl (unrouted-past _ e))), course-AllInside Past es (λ x. h (inr x)))
  course-AllInside Past (ends i (connects peer ec clock) ∷ es) h =
      (tt, course-AllInside Past es (λ x. h (inr x)))
  course-AllInside Past (ends i (accepts peer ec) ∷ es) h =
      (tt, course-AllInside Past es (λ x. h (inr x)))
  course-AllInside Past (ends i (sends ec) ∷ es) h = (tt, course-AllInside Past es (λ x. h (inr x)))
  course-AllInside Past (ends i (waits ec) ∷ es) h = (tt, course-AllInside Past es (λ x. h (inr x)))
  course-AllInside Past (arrives k clock ∷ es) h = course-AllInside Past es (λ x. h (inr x))

module _ {Value Float Addr Buf Table : Type 0} (modbus : Modbus Buf) (laws : Modbus.Laws modbus)
    (json : Json Value Float) (asio : Asio Addr) (ids : UnitIds) (system : System Addr)
    (exchange : Exchange Table) (exchange_laws : Exchange.Laws exchange) where
  start_program-IsSeparate :
      (text : String) (t : Table) (gateway : Gateway Addr Table)
      → start_program json asio ids system exchange text t ≡ ok gateway
      → IsSeparate exchange gateway
  unfolding start_program
  start_program-IsSeparate text t gateway h =
      let (config, _, h₁) = bind_returns (read_config json asio ids text) _ h in
      let (_, _, h₂) = bind_returns (validate config) _ h₁ in
      start_gateway-IsSeparate system exchange exchange_laws ids.limit config t gateway h₂

  -- With the documented behaviour of the buffers and the exchange, and the largest unit id below the
  -- size of the routing table: if the program starts on a configuration, then whatever connections
  -- are accepted and closed, whatever is received, however operations end and in whatever order
  -- messages reach the actors: each frame that a master has ever sent, and that of each message that
  -- was sent to a master, if its unit id is in the table, has the unit id of a range that this master
  -- is the last configured one to claim, or, if no master claims it, one that falls to it as the
  -- default master; such a message has a frame, and its answer goes to an actor that is not a master;
  -- no master is reported as disconnected; and behaviour is never undefined at a master, and at a
  -- slave only if a frame was received whose unit id is not in the table.
  pub start_program-SendsOwn :
      ids.max < ids.limit
      → (text : String) (t : Table) (gateway : Gateway Addr Table)
      → start_program json asio ids system exchange text t ≡ ok gateway
      → (es : List (Event Buf))
      → All
          (SendsOwn modbus ids exchange.default_id gateway es)
          (run modbus exchange gateway.router es (launch modbus exchange gateway)).log
  start_program-SendsOwn fits text t gateway h es =
      let (outside, holds) = start_program-IsSeparate text t gateway h in
      let routed =
        run-IsRouted modbus laws exchange exchange_laws gateway.router (has_id gateway.masters)
          (AnyPast modbus ids es) es (launch modbus exchange gateway)
          (launch-IsRouted modbus exchange gateway.router (has_id gateway.masters)
            (AnyPast modbus ids es) gateway (has_id_self gateway.masters) outside holds)
          (course-AllInside modbus ids exchange.default_id gateway (routes fits).1
            (AnyPast modbus ids es) es (λ x. x)) in
      All-map _ _ _ (IsAllowed-SendsOwn modbus ids exchange.default_id gateway (routes fits).1 es)
        routed.log
    where
      routes : ids.max < ids.limit → RoutesGateway exchange ids gateway
      routes q =
          subst (RunsWell (RoutesGateway exchange ids)) h
            (start_program-RunsWell json asio ids system exchange q text t)
