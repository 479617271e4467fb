-- ===== src/Network/Invariant.antt =====
-- What every event of the gateway keeps: masters hold and send only what is routed to them.
use modbus_gateway.Base.{
  ℕ, ◌≡◌, subst, Bool, true, false, Option, some, List, [], ◌∷◌, ◌==◌, ==_iff, All, All-concat,
  Bool-cases, inl, inr, arith,
}
use modbus_gateway.Modbus.{Modbus}
use modbus_gateway.Exchange.{Exchange}
use modbus_gateway.Router.{Router}
use modbus_gateway.Transport.{Effect}
use modbus_gateway.Transport.Traffic.{IsAddressed, IsAllowed, AllAllowed, IsAllowed-delivered}
use modbus_gateway.TcpClient.Routed as Client
use modbus_gateway.RtuMaster.Routed as Line
use modbus_gateway.TcpConnection.Routed as Connection
use modbus_gateway.RtuSlave.Routed as Slave
use modbus_gateway.TcpServer.{TcpServer}
use modbus_gateway.Network.{
  Actor, tcp_client, rtu_master, tcp_connection, rtu_slave, tcp_server, World, update, note, act,
  put,
}

module _ {Buf Table : Type 0} (modbus : Modbus Buf) (exchange : Exchange Table) (router : Router)
    (is_master : ℕ → Bool) (Past : Type 0) where
  -- Masters have the masters' ids and hold only requests that are routed to them; any other actor
  -- has another id.
  abbrev pub IsRight : ℕ → Actor Buf → Type 0
  IsRight i (tcp_client c) = (is_master i ≡ true) × Client.Serves modbus router is_master Past i c
  IsRight i (rtu_master c) = (is_master i ≡ true) × Line.Serves modbus router is_master Past i c
  IsRight i (tcp_connection c) = Connection.IsOutside modbus router is_master Past i c
  IsRight i (rtu_slave c) = Slave.IsOutside modbus router is_master Past i c
  IsRight i (tcp_server s) = is_master i ≡ false

  pub record IsRouted (w : World Buf Table) : Type 0 where
    pub registered : (i : ℕ) → is_master i ≡ true → exchange.registered w.table i ≡ true
    pub actors : (i : ℕ) (a : Actor Buf) → w.actors i ≡ some a → IsRight i a
    pub mail : All (IsAddressed modbus router is_master Past) w.mail
    pub log : All (λ (e : ℕ × Effect Buf). IsAllowed modbus router is_master Past e.0 e.1) w.log

  pub update-IsRight :
      (f : ℕ → Option (Actor Buf)) (i : ℕ) (o : Option (Actor Buf))
      → ((j : ℕ) (a : Actor Buf) → f j ≡ some a → IsRight j a)
      → ((a : Actor Buf) → o ≡ some a → IsRight i a)
      → (j : ℕ) (a : Actor Buf) → update f i o j ≡ some a
      → IsRight j a
  update-IsRight f i o h k j a e = elim (Bool-cases (i == j)) [
    | inl s ↦ subst (λ x. IsRight x a) ((==_iff i j).0 s) (k a (ground arith))
    | inr s ↦ h j a (ground arith)
  ]

  All-note :
      (i : ℕ) (es : List (Effect Buf))
      → AllAllowed modbus router is_master Past i es
      → All (λ (e : ℕ × Effect Buf). IsAllowed modbus router is_master Past e.0 e.1) (note i es)
  All-note i [] h = tt
  All-note i (e ∷ es) h = (h.0, All-note i es h.1)

  pub act-IsRouted :
      (i : ℕ) (a : Actor Buf) (es : List (Effect Buf)) (w : World Buf Table)
      → IsRouted w
      → IsRight i a
      → AllAllowed modbus router is_master Past i es
      → IsRouted (act i a es w)
  act-IsRouted i a es w v r h = record {
    registered = v.registered;
    actors =
        update-IsRight w.actors i (some a) v.actors (λ b e. subst (IsRight i) (some-injective e) r);
    mail =
        All-concat (IsAddressed modbus router is_master Past) w.mail _ v.mail
          (IsAllowed-delivered modbus router is_master Past i es h);
    log = All-concat _ w.log (note i es) v.log (All-note i es h);
  }
    where
      some-injective : {a b : Actor Buf} → some a ≡ some b → a ≡ b
      some-injective e = cc

  pub put-IsRouted :
      (i : ℕ) (s : TcpServer) (t : Table) (w : World Buf Table)
      → IsRouted w
      → is_master i ≡ false
      → ((j : ℕ) → is_master j ≡ true → exchange.registered t j ≡ true)
      → IsRouted (put i (tcp_server s) t w)
  put-IsRouted i s t w v o r = record {
    registered = r;
    actors = update-IsRight w.actors i (some (tcp_server s)) v.actors (λ a e. served a e);
    mail = v.mail;
    log = v.log;
  }
    where
      served : (a : Actor Buf) → some (tcp_server s) ≡ some a → IsRight i a
      served (tcp_server s') e = o
      served (tcp_client c) e = cc
      served (rtu_master c) e = cc
      served (tcp_connection c) e = cc
      served (rtu_slave c) e = cc
