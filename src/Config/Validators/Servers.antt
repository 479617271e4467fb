-- ===== src/Config/Validators/Servers.antt =====
-- ValidateServers against a pairwise description of the endpoints that may stand together.
use modbus_gateway.Base.{
  ◌⊎◌, ◌≡◌, refl, sym, ap, ◌∙◌, Bool, true, false, ◌&&◌, ◌||◌, not, Option, none, some, List, [],
  ◌∷◌, ◌++◌, if◌then◌else◌, Bool-cases, inl, inr, arith, subst,
}
use modbus_gateway.Exception.{Result, ok, throws, undefined, out_of_fuel}
use modbus_gateway.Config.Types.{TransportConfig, tcp_server, TcpServerConfig}
use modbus_gateway.Config.TracePath.{TracePath, push, pop}
use modbus_gateway.Config.Extract.{Extract, continue, pure, throw_invalid_value}
use modbus_gateway.Config.Validators.{
  Addresses, Endpoints, find_address, is_any, add_address, add_server_at, add_servers,
  validate_servers,
}
use modbus_gateway.Config.Validators.Endpoints.{
  succeeds, apart, pairwise_apart, with_server, servers_of, all_apart, acceptable, hits, is_found,
  Knows, find_address-append, Knows-assign, hits-at,
}

-- What follows a statement that threw does not succeed.
succeeds-continue :
    {A B : Type 0} (r : Result A) (path : TracePath) (k : A → Extract B)
    → succeeds r ≡ false
    → succeeds (continue r path k).0 ≡ false
succeeds-continue (ok a) path k h = cc
succeeds-continue (throws e) path k h = refl
succeeds-continue undefined path k h = refl
succeeds-continue out_of_fuel path k h = refl

continue-pure :
    {A : Type 0} (r : Result A) (path : TracePath)
    → succeeds (continue r path (λ a. pure (tt {0}))).0 ≡ succeeds r
continue-pure (ok a) path = refl
continue-pure (throws e) path = refl
continue-pure undefined path = refl
continue-pure out_of_fuel path = refl

module _ {Addr : Type 0} (addresses : Addresses Addr) where
  -- The step of the loop: it throws if the server clashes with an earlier one.
  abbrev Steps :
      List (TcpServerConfig Addr)
      → TcpServerConfig Addr
      → Result (Endpoints Addr) × TracePath
      → TracePath
      → Type 0
  Steps cs c out path =
      ((hits addresses cs c.port c.address ≡ true) × (succeeds out.0 ≡ false))
      ⊎ ((hits addresses cs c.port c.address ≡ false)
          × ((f' : Endpoints Addr) × (out ≡ (ok f', path)) × Knows addresses (c ∷ cs) f'))

  -- Neither the server nor an earlier one at its port has the address `any`.
  add_address-Steps :
      (cs : List (TcpServerConfig Addr)) (c : TcpServerConfig Addr) (f : Endpoints Addr) (b : Addr)
      (bs : List Addr) (found : Option Addr) (path : TracePath)
      → f c.port ≡ some (b ∷ bs)
      → Knows addresses cs f
      → is_any addresses c.address ≡ false
      → find_address addresses (b ∷ bs) c.address ≡ found
      → Steps cs c
          (add_address addresses " on other server" f c.port (b ∷ bs) c.address found path)
          path
  unfolding is_found
  add_address-Steps cs c f b bs (some a) path e k x q = inl (
    hits-at addresses cs f c.port (some (b ∷ bs)) c.address e k
        ∙ (λ i. x i || is_found addresses (q i)),
    refl,
  )
  add_address-Steps cs c f b bs none path e k x q = inr (
    hits-at addresses cs f c.port (some (b ∷ bs)) c.address e k
        ∙ (λ i. x i || is_found addresses (q i)),
    (
      _,
      refl,
      Knows-assign addresses cs c f ((b ∷ bs) ++ c.address ∷ []) k (λ a. grind (
        arith,
        x,
        hits-at addresses cs f c.port (some (b ∷ bs)) a e k,
        find_address-append addresses (b ∷ bs) c.address a,
      )),
    ),
  )

  add_server_at-Steps :
      (cs : List (TcpServerConfig Addr)) (c : TcpServerConfig Addr) (f : Endpoints Addr)
      (at_port : Option (List Addr)) (path : TracePath)
      → f c.port ≡ at_port
      → Knows addresses cs f
      → Steps cs c (add_server_at addresses f c.port c.address at_port path) path
  unfolding is_found
  add_server_at-Steps cs c f none path e k = inr (
    ground (arith, e, k c.port c.address),
    (
      _,
      refl,
      Knows-assign addresses cs c f (if is_any addresses c.address then [] else c.address ∷ []) k
          (λ a. ground (arith, e, k c.port a)),
    ),
  )
  add_server_at-Steps cs c f (some []) path e k =
      inl (ground (arith, e, k c.port c.address), ground arith)
  add_server_at-Steps cs c f (some (b ∷ bs)) path e k =
      elim (Bool-cases (is_any addresses c.address)) [
        | inl x ↦ inl (ground (arith, e, k c.port c.address), rw x refl)
        | inr x ↦
            let found = find_address addresses (b ∷ bs) c.address in
            subst
              (λ any.
                Steps cs c
                  ((if any
                      then throw_invalid_value "0"
                          "any ip address intersected with ip address on other server"
                      else add_address addresses " on other server" f c.port (b ∷ bs) c.address
                          found)
                    path)
                  path)
              (sym x) (add_address-Steps cs c f b bs found path e k x refl)
      ]

  -- What the loop accepts after the servers `seen`, if the map knows them.
  abbrev untouched : List (TcpServerConfig Addr) → List (TcpServerConfig Addr) → Bool
  untouched [] ss = true
  untouched (c ∷ cs) ss = apart addresses c ss && untouched cs ss

  abbrev verdict : List (TcpServerConfig Addr) → Option (List (TcpServerConfig Addr)) → Bool
  verdict seen none = false
  verdict seen (some ss) = untouched seen ss && pairwise_apart addresses ss

  untouched-nil : (seen : List (TcpServerConfig Addr)) → untouched seen [] ≡ true
  untouched-nil [] = refl
  untouched-nil (c ∷ cs) = ground (arith, untouched-nil cs)

  untouched-cons :
      (seen : List (TcpServerConfig Addr)) (c : TcpServerConfig Addr)
      (ss : List (TcpServerConfig Addr))
      → untouched seen (c ∷ ss) ≡ not (hits addresses seen c.port c.address) && untouched seen ss
  untouched-cons [] c ss = refl
  untouched-cons (d ∷ ds) c ss = ground (arith, untouched-cons ds c ss)

  verdict-with_server :
      (seen : List (TcpServerConfig Addr)) (c : TcpServerConfig Addr)
      (o : Option (List (TcpServerConfig Addr)))
      → verdict seen (with_server addresses c o)
        ≡ not (hits addresses seen c.port c.address) && verdict (c ∷ seen) o
  verdict-with_server seen c none = ground arith
  verdict-with_server seen c (some ss) = ground (arith, untouched-cons seen c ss)

  verdict-nil : (o : Option (List (TcpServerConfig Addr))) → verdict [] o ≡ all_apart addresses o
  verdict-nil none = refl
  verdict-nil (some ss) = refl

  add_servers-verdict :
      (cs : List (TransportConfig Addr)) (seen : List (TcpServerConfig Addr)) (f : Endpoints Addr)
      (path : TracePath)
      → Knows addresses seen f
      → succeeds (add_servers addresses f cs path).0 ≡ verdict seen (servers_of addresses cs)
  unfolding add_servers
  add_servers-verdict [] seen f path k = rw (untouched-nil seen) refl
  add_servers-verdict (tcp_server c ∷ cs) seen f path k =
      elim (add_server_at-Steps seen c f (f c.port) (push "0" path) refl k) [
        | inl (h, fails) ↦
            let out = add_server_at addresses f c.port c.address (f c.port) (push "0" path) in
            succeeds-continue out.0 (pop out.1) (λ f'. add_servers addresses f' cs) fails
            ∙ sym (
                verdict-with_server seen c (servers_of addresses cs)
                ∙ ap (λ b. not b && verdict (c ∷ seen) (servers_of addresses cs)) h)
        | inr (h, (f', q, k')) ↦
            ap
              (λ (out : Result (Endpoints Addr) × TracePath).
                succeeds (continue out.0 (pop out.1) (λ f''. add_servers addresses f'' cs)).0)
              q
            ∙ add_servers-verdict cs (c ∷ seen) f' path k'
            ∙ sym (
                verdict-with_server seen c (servers_of addresses cs)
                ∙ ap (λ b. not b && verdict (c ∷ seen) (servers_of addresses cs)) h)
      ]
  add_servers-verdict (_ ∷ cs) seen f path k = refl

  -- ValidateServers ends without an exception exactly if all slaves are TCP servers and no two of them
  -- clash: have the same port, and the same address or the address `any` for one of them.
  pub validate_servers_lem :
      (cs : List (TransportConfig Addr)) (path : TracePath)
      → succeeds (validate_servers addresses cs path).0 ≡ acceptable addresses cs
  unfolding validate_servers
  validate_servers_lem cs path =
      let out = add_servers addresses (λ p. none) cs (push "servers" path) in
      continue-pure out.0 out.1
      ∙ add_servers-verdict cs [] (λ p. none) (push "servers" path) (λ p a. refl)
      ∙ verdict-nil (servers_of addresses cs)
