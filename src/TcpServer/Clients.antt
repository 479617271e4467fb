-- ===== src/TcpServer/Clients.antt =====
-- The clients of a server and their registration with the exchange.
use modbus_gateway.Base.{
  ℕ, ◌≡◌, ◌≢◌, refl, sym, ap, ◌∙◌, Bool, true, false, none, some, List, [], ◌∷◌, ◌==◌, ==_iff, All,
  All-map, inl, inr, Bool-cases, arith,
}
use modbus_gateway.Asio.{Peer, stays, left, leaves, Completion}
use modbus_gateway.Exchange
use modbus_gateway.Exchange.{Exchange}
use modbus_gateway.TcpServer.{
  TcpServer, insert_client, erase_client, on_accept, stop, stop_clients, disconnect_client,
}

abbrev pub Lacks : ℕ → List ℕ → Type 0
Lacks id = All (λ i. i ≢ id)

abbrev pub Distinct : List ℕ → Type 0
Distinct [] = Unit
Distinct (i ∷ ids) = Lacks i ids × Distinct ids

-- A fresh id goes to the end, an erased one leaves no trace.
insert_client-Lacks :
    (j id : ℕ) (ids : List ℕ) → Lacks j ids → id ≢ j → Lacks j (insert_client id ids)
insert_client-Lacks j id [] h n = (n, tt)
insert_client-Lacks j id (i ∷ ids) h n = ground (arith, insert_client-Lacks j id ids h.1 n)

insert_client-Distinct :
    (id : ℕ) (ids : List ℕ) → Lacks id ids → Distinct ids → Distinct (insert_client id ids)
insert_client-Distinct id [] h d = (tt, tt)
insert_client-Distinct id (i ∷ ids) h d = ground (
  arith,
  insert_client-Distinct id ids h.1 d.1,
  insert_client-Lacks i id ids d.0 (λ e. h.0 (sym e)),
)

erase_client-Lacks : (j id : ℕ) (ids : List ℕ) → Lacks j ids → Lacks j (erase_client id ids)
erase_client-Lacks j id [] h = tt
erase_client-Lacks j id (i ∷ ids) h = ground (arith, erase_client-Lacks j id ids h.1)

erase_client-Distinct : (id : ℕ) (ids : List ℕ) → Distinct ids → Distinct (erase_client id ids)
erase_client-Distinct id [] d = tt
erase_client-Distinct id (i ∷ ids) d =
    ground (arith, erase_client-Distinct id ids d.1, erase_client-Lacks i id ids d.0)

erase_client-Lacks_self : (id : ℕ) (ids : List ℕ) → Distinct ids → Lacks id (erase_client id ids)
erase_client-Lacks_self id [] d = tt
erase_client-Lacks_self id (i ∷ ids) d = elim (Bool-cases (i == id)) [
  | inl e ↦ rw (e, ← (==_iff i id).0 e) d.0
  | inr e ↦ rw e (ground arith, erase_client-Lacks_self id ids d.1)
]

module _ {Table : Type 0} (exchange : Exchange Table) (laws : Exchange.Laws exchange) where
  abbrev pub AllRegistered : Table → List ℕ → Type 0
  AllRegistered t = All (λ i. exchange.registered t i ≡ true)

  -- The ids of the clients are different and registered.
  pub record IsSound (s : TcpServer) (t : Table) : Type 0 where
    pub distinct : Distinct s.client_db
    pub registered : AllRegistered t s.client_db

  insert_client-registered :
      (t : Table) (id : ℕ) (ids : List ℕ)
      → AllRegistered t ids
      → exchange.registered t id ≡ true
      → AllRegistered t (insert_client id ids)
  insert_client-registered t id [] h r = (r, tt)
  insert_client-registered t id (i ∷ ids) h r =
      ground (arith, insert_client-registered t id ids h.1 r)

  registered-Lacks : (t : Table) (ids : List ℕ) → AllRegistered t ids → Lacks (exchange.add t).0 ids
  registered-Lacks t ids =
      All-map _ _ ids (λ i r e. cc (laws.add_fresh t, r, ap (exchange.registered t) e))

  -- Deleting one id leaves the others registered.
  delete-registered :
      (t : Table) (id : ℕ) (ids : List ℕ)
      → Lacks id ids
      → AllRegistered t ids
      → AllRegistered (exchange.delete id t) ids
  delete-registered t id [] l h = tt
  delete-registered t id (i ∷ ids) l h =
      (laws.delete_keeps t id i (λ e. l.0 (sym e)) ∙ h.0, delete-registered t id ids l.1 h.1)

  erase_client-registered :
      (t : Table) (id : ℕ) (ids : List ℕ)
      → AllRegistered t ids
      → AllRegistered t (erase_client id ids)
  erase_client-registered t id [] h = tt
  erase_client-registered t id (i ∷ ids) h = ground (arith, erase_client-registered t id ids h.1)

  insert_client-IsSound :
      (s : TcpServer) (t : Table)
      → IsSound s t
      → IsSound
          (record s { client_db = insert_client (exchange.add t).0 s.client_db })
          (exchange.add t).1
  insert_client-IsSound s t v = record {
    distinct =
        insert_client-Distinct (exchange.add t).0 s.client_db
          (registered-Lacks t s.client_db v.registered) v.distinct;
    registered =
        insert_client-registered (exchange.add t).1 (exchange.add t).0 s.client_db
          (All-map _ _ s.client_db (laws.add_keeps t) v.registered) (laws.add_registered t);
  }

  pub on_accept-IsSound :
      (alive : Bool) (peer : Peer) (ec : Completion) (s : TcpServer) (t : Table)
      → IsSound s t
      → let o = on_accept exchange alive peer ec s t in IsSound o.0 o.1
  unfolding on_accept
  on_accept-IsSound false peer ec s t v = v
  on_accept-IsSound true peer (some ec) s t v = ground arith
  on_accept-IsSound true left none s t v = v
  on_accept-IsSound true leaves none s t v = insert_client-IsSound s t v
  on_accept-IsSound true stays none s t v = insert_client-IsSound s t v

  pub disconnect_client-IsSound :
      (alive : Bool) (id : ℕ) (s : TcpServer) (t : Table)
      → IsSound s t
      → let o = disconnect_client exchange alive id s t in IsSound o.0 o.1
  unfolding disconnect_client
  disconnect_client-IsSound false id s t v = record {
    distinct = erase_client-Distinct id s.client_db v.distinct;
    registered = erase_client-registered t id s.client_db v.registered;
  }
  disconnect_client-IsSound true id s t v = record {
    distinct = erase_client-Distinct id s.client_db v.distinct;
    registered =
        delete-registered t id (erase_client id s.client_db)
          (erase_client-Lacks_self id s.client_db v.distinct)
          (erase_client-registered t id s.client_db v.registered);
  }

  -- With the documented behaviour of the exchange: if the ids in the map of a server are different
  -- and registered, a client that disconnects while the exchange exists is neither in the map nor
  -- registered afterwards.
  pub disconnect_client-forgets :
      (id : ℕ) (s : TcpServer) (t : Table)
      → IsSound s t
      → let o = disconnect_client exchange true id s t in
        Lacks id o.0.client_db × (exchange.registered o.1 id ≡ false)
  unfolding disconnect_client
  disconnect_client-forgets id s t v =
      (erase_client-Lacks_self id s.client_db v.distinct, laws.delete_unregistered t id)

  stop_clients-keeps :
      (ids : List ℕ) (t : Table) (j : ℕ)
      → exchange.registered t j ≡ false
      → exchange.registered (stop_clients exchange true ids t).0 j ≡ false
  unfolding stop_clients
  stop_clients-keeps [] t j h = h
  stop_clients-keeps (i ∷ ids) t j h =
      stop_clients-keeps ids (exchange.delete i t) j (elim (Bool-cases (i == j)) [
        | inl e ↦ rw (← (==_iff i j).0 e) (laws.delete_unregistered t i)
        | inr n ↦ laws.delete_keeps t i j (ground arith) ∙ h
      ])

  stop_clients-unregisters :
      (ids : List ℕ) (t : Table)
      → All (λ i. exchange.registered (stop_clients exchange true ids t).0 i ≡ false) ids
  unfolding stop_clients
  stop_clients-unregisters [] t = tt
  stop_clients-unregisters (i ∷ ids) t = (
    stop_clients-keeps ids (exchange.delete i t) i (laws.delete_unregistered t i),
    stop_clients-unregisters ids (exchange.delete i t),
  )

  -- With the documented behaviour of the exchange: Stop empties the map of a server, and if the
  -- exchange exists none of the former clients is registered afterwards.
  pub stop-unregisters :
      (s : TcpServer) (t : Table)
      → let o = stop exchange true s t in
        (o.0.client_db ≡ []) × All (λ i. exchange.registered o.1 i ≡ false) s.client_db
  unfolding stop
  stop-unregisters s t = (refl, stop_clients-unregisters s.client_db t)
