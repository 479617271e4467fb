-- ===== src/TcpServer.antt =====
-- transport/modbus_tcp_server.cpp and its header: the server that accepts the TCP clients. The state
-- of the exchange is passed along, since the server adds its clients there and deletes them.
pub mod Clients
pub mod Disconnects
pub mod Histories
use modbus_gateway.Base.{
  ℕ, Bool, true, false, Option, none, some, List, [], ◌∷◌, ◌++◌, ◌==◌, if◌then◌else◌,
}
use modbus_gateway.Asio.{Peer, stays, left, leaves, Completion, is_aborted}
use modbus_gateway.Exchange.{Exchange}
use modbus_gateway.Message.{Message, modbus_message, client_disconnect}

-- What the server asks of its acceptor and of its clients, which are named by their ids: async_accept
-- and cancel, and a client's Start and Stop.
pub data ServerEffect : Type 0 where
  start_accept cancel_accept : ServerEffect
  start_client stop_client : ℕ → ServerEffect
  -- an exception leaves the handler, and context->run(), which ends the program
  escapes : ServerEffect

-- The members but for the acceptor, the router and the mutex. The map from ids to clients is the
-- list of its keys: a client is an actor of its own, behind a pointer.
pub record TcpServer : Type 0 where
  pub id : ℕ
  pub client_db : List ℕ

-- `clientDb_[id] = client`
abbrev pub insert_client : ℕ → List ℕ → List ℕ
insert_client id [] = id ∷ []
insert_client id (i ∷ ids) = if i == id then i ∷ ids else i ∷ insert_client id ids

-- `clientDb_.erase(id)`
abbrev pub erase_client : ℕ → List ℕ → List ℕ
erase_client id [] = []
erase_client id (i ∷ ids) = if i == id then ids else i ∷ erase_client id ids

-- The constructor, once the acceptor is bound; `id` is exchange::defaultId.
unfoldable pub make_tcp_server : ℕ → TcpServer
make_tcp_server id = record { id = id; client_db = [] }

unfoldable pub set_id : ℕ → TcpServer → TcpServer
set_id id s = record s { id = id }

module _ {Table : Type 0} (exchange : Exchange Table) where
  abbrev pub Outcome : Type 0
  Outcome = TcpServer × Table × List ServerEffect

  -- Start and AcceptTask up to its handler.
  unfoldable pub start : TcpServer → Table → Outcome
  start s t = (s, t, start_accept ∷ [])

  -- The handler of async_accept; `alive` is whether the exchange still exists. Its log line asks for
  -- the peer, and so does that of the client's Start.
  unfoldable pub on_accept : Bool → Peer → Completion → TcpServer → Table → Outcome
  on_accept false peer ec s t = (s, t, [])
  on_accept true peer (some ec) s t =
      if is_aborted ec then (s, t, []) else (s, t, start_accept ∷ [])
  on_accept true left none s t = (s, t, escapes ∷ [])
  on_accept true leaves none s t =
      let added = exchange.add t in
      (record s { client_db = insert_client added.0 s.client_db }, added.1, escapes ∷ [])
  on_accept true stays none s t =
      let added = exchange.add t in
      (
        record s { client_db = insert_client added.0 s.client_db },
        added.1,
        start_client added.0 ∷ start_accept ∷ [],
      )

  unfoldable pub disconnect_client : Bool → ℕ → TcpServer → Table → Outcome
  disconnect_client alive client_id s t = (
    record s { client_db = erase_client client_id s.client_db },
    if alive then exchange.delete client_id t else t,
    [],
  )

  unfoldable pub receive : {Buf : Type 0} → Bool → Message Buf → TcpServer → Table → Outcome
  receive alive (client_disconnect i) s t = disconnect_client alive i s t
  receive alive (modbus_message m) s t = (s, t, [])

  -- The loop of Stop.
  stop_clients : Bool → List ℕ → Table → Table × List ServerEffect
  stop_clients alive [] t = (t, [])
  stop_clients alive (i ∷ ids) t =
      let (t', es) = stop_clients alive ids (if alive then exchange.delete i t else t) in
      (t', stop_client i ∷ es)

  unfoldable pub stop : Bool → TcpServer → Table → Outcome
  unfolding stop_clients
  stop alive s t =
      let (t', es) = stop_clients alive s.client_db t in
      (record s { client_db = [] }, t', cancel_accept ∷ es)
