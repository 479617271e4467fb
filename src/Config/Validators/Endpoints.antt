-- ===== src/Config/Validators/Endpoints.antt =====
-- Which endpoints of servers may stand together, and what the map of ValidateServers knows of them.
use modbus_gateway.Base.{
  ℕ, ◌≡◌, sym, ap, ◌∙◌, Bool, true, false, ◌&&◌, ◌||◌, not, Option, none, some, List, [], ◌∷◌, ◌++◌,
  ◌==◌, ==_iff, Bool-cases, inl, inr, arith,
}
use modbus_gateway.Exception.{Result, ok}
use modbus_gateway.Config.Types.{TransportConfig, tcp_server, TcpServerConfig}
use modbus_gateway.Config.Validators.{Addresses, Endpoints, assign, find_address, is_any}

abbrev pub succeeds : {A : Type 0} → Result A → Bool
succeeds (ok a) = true
succeeds _ = false

module _ {Addr : Type 0} (addresses : Addresses Addr) where
  -- Two servers cannot both listen: the same port, and one address, or `any` for one of them.
  abbrev pub clash : TcpServerConfig Addr → TcpServerConfig Addr → Bool
  clash c d =
      c.port == d.port
      && (is_any addresses d.address
          || is_any addresses c.address
          || addresses.same c.address d.address)

  abbrev pub apart : TcpServerConfig Addr → List (TcpServerConfig Addr) → Bool
  apart c [] = true
  apart c (d ∷ ds) = not (clash c d) && apart c ds

  abbrev pub pairwise_apart : List (TcpServerConfig Addr) → Bool
  pairwise_apart [] = true
  pairwise_apart (c ∷ cs) = apart c cs && pairwise_apart cs

  -- The servers of a list of configurations, if all are TCP servers.
  abbrev pub with_server :
      TcpServerConfig Addr
      → Option (List (TcpServerConfig Addr))
      → Option (List (TcpServerConfig Addr))
  with_server c none = none
  with_server c (some ss) = some (c ∷ ss)

  abbrev pub servers_of : List (TransportConfig Addr) → Option (List (TcpServerConfig Addr))
  servers_of [] = some []
  servers_of (tcp_server c ∷ cs) = with_server c (servers_of cs)
  servers_of (_ ∷ cs) = none

  abbrev pub all_apart : Option (List (TcpServerConfig Addr)) → Bool
  all_apart none = false
  all_apart (some ss) = pairwise_apart ss

  -- All are TCP servers, and no two of them clash.
  abbrev pub acceptable : List (TransportConfig Addr) → Bool
  acceptable cs = all_apart (servers_of cs)

  -- Whether a server clashes with one of those that came before.
  abbrev pub hits : List (TcpServerConfig Addr) → ℕ → Addr → Bool
  hits [] p a = false
  hits (c ∷ cs) p a = clash c (record { address = a; port = p }) || hits cs p a

  unfoldable pub is_found : Option Addr → Bool
  is_found none = false
  is_found (some a) = true

  abbrev pub blocked : Option (List Addr) → Addr → Bool
  blocked none a = false
  blocked (some []) a = true
  blocked (some (b ∷ bs)) a = is_any addresses a || is_found (find_address addresses (b ∷ bs) a)

  -- The map holds what matters of the servers that came before.
  abbrev pub Knows : List (TcpServerConfig Addr) → Endpoints Addr → Type 0
  Knows cs f = (p : ℕ) (a : Addr) → blocked (f p) a ≡ hits cs p a

  pub find_address-append :
      (set : List Addr) (a d : Addr)
      → is_found (find_address addresses (set ++ a ∷ []) d)
        ≡ is_found (find_address addresses set d) || addresses.same a d
  unfolding is_found
  find_address-append [] a d = ground arith
  find_address-append (b ∷ bs) a d = ground (arith, find_address-append bs a d)

  pub Knows-assign :
      (cs : List (TcpServerConfig Addr)) (c : TcpServerConfig Addr) (f : Endpoints Addr)
      (set : List Addr)
      → Knows cs f
      → ((a : Addr)
          → blocked (some set) a
            ≡ (is_any addresses a || is_any addresses c.address || addresses.same c.address a)
              || hits cs c.port a)
      → Knows (c ∷ cs) (assign f c.port set)
  Knows-assign cs c f set k h p a = elim (Bool-cases (c.port == p)) [
    | inl e ↦ ground (arith, h a, ap (λ q. hits cs q a) ((==_iff c.port p).0 e))
    | inr e ↦ rw e (k p a)
  ]

  pub hits-at :
      (cs : List (TcpServerConfig Addr)) (f : Endpoints Addr) (p : ℕ) (set : Option (List Addr))
      (a : Addr)
      → f p ≡ set
      → Knows cs f
      → hits cs p a ≡ blocked set a
  hits-at cs f p set a e k = sym (k p a) ∙ ap (λ o. blocked o a) e
